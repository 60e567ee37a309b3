-- ===== src/Abuse/Api.antt =====
-- `router` of crates/abuse-api/src/routes.rs: one constructor for each method and path, with the
-- decoded parameters, and the state that a request leaves.
use opengroupware.Prelude.{List, [], ◌∷◌}
use opengroupware.Db.World.{Uuid, World}
use opengroupware.Db.Connect.{Db}
use opengroupware.Auth.Caller.{Caller}
use opengroupware.Abuse.Models.{RecordDecision, ReportFeedback}
use opengroupware.Abuse.Tables.{Quarantine}
use opengroupware.Abuse.Routes.{record_decision, list_quarantine, release_item, report_item}

pub data AbuseRequest : Type 0 where
  post_decisions : Uuid → RecordDecision → AbuseRequest
  get_quarantine : Uuid → AbuseRequest
  post_release : Uuid → Uuid → AbuseRequest
  post_report : Uuid → Uuid → ReportFeedback → AbuseRequest

unfoldable pub abuse_router : Db → Caller → AbuseRequest → World Quarantine → World Quarantine
abuse_router d caller (post_decisions t req) w = (record_decision d t caller req w).1
abuse_router d caller (get_quarantine t) w = (list_quarantine d t w).1
abuse_router d caller (post_release t item_id) w = (release_item d t item_id caller w).1
abuse_router d caller (post_report t item_id req) w = (report_item d t item_id caller req w).1

-- Requests from any callers, one after another.
unfoldable pub abuse_serve : Db → List (Caller × AbuseRequest) → World Quarantine → World Quarantine
unfolding abuse_router
abuse_serve d [] w = w
abuse_serve d ((caller, req) ∷ rest) w = abuse_serve d rest (abuse_router d caller req w)
