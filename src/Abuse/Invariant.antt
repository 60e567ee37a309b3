-- ===== src/Abuse/Invariant.antt =====
-- Every request keeps the tables of the abuse service well formed, whoever sends it and whatever the
-- connection does.
use opengroupware.Prelude.{
  ◌≡◌, true, false, List, [], ◌∷◌, ◌++◌, inl, inr, ◌⊎◌, ◌==◌, nat_eq, string_eq, arith, any,
  any-append, ◌&&◌, ◌∙◌,
}
use opengroupware.Db.World.{Uuid, World}
use opengroupware.Db.Connect.{Db}
use opengroupware.Db.Transaction.{tenant, session}
use opengroupware.Db.Commits.{Commits-keeps, statement-Commits}
use opengroupware.Db.Errors.{db}
use opengroupware.Auth.Caller.{Caller}
use opengroupware.Abuse.Models.{AbuseDecision, RecordDecision}
use opengroupware.Abuse.Tables.{Quarantine, select_held}
use opengroupware.Abuse.Statements.{Held}
use opengroupware.Abuse.Routes.{list_quarantine}
use opengroupware.Abuse.Api.{
  AbuseRequest, post_decisions, get_quarantine, post_release, post_report, abuse_router,
  abuse_serve,
}
use opengroupware.Abuse.Effects.{
  Recorded, record_decision-Commits, Release, release_item-Commits, Report, report_item-Commits,
}
use opengroupware.Abuse.Workflow.{verdict_known}
use opengroupware.Abuse.WellFormed.{
  QuarantineOk, QuarantineOk-Decided, QuarantineOk-Held, QuarantineOk-released,
  QuarantineOk-reported, QuarantineOk-audit,
}

module _ (d : Db) (caller : Caller) where
  -- The decision that has just been added is found.
  added-found :
      (t : Uuid) (a : AbuseDecision) (ds : List AbuseDecision)
      → a.tenant_id ≡ t
      → any (λ (x : AbuseDecision). x.id == a.id && x.tenant_id == t) (ds ++ a ∷ []) ≡ true
  unfolding any
  added-found t a ds own =
      any-append (λ (x : AbuseDecision). x.id == a.id && x.tenant_id == t) ds (a ∷ [])
      ∙ ground (arith, own)

  Recorded-Ok :
      (t : Uuid) (req : RecordDecision) (s : Quarantine) (a : AbuseDecision) (s' : Quarantine)
      → Recorded d t caller req s a s'
      → QuarantineOk s
      → QuarantineOk s'
  Recorded-Ok t req s a s' r h =
      rw r.tables_eq (QuarantineOk-audit r.after _ (go r.held (QuarantineOk-Decided r.decided h)))
    where
      there :
          any (λ (x : AbuseDecision). x.id == a.id && x.tenant_id == t) r.between.abuse_decision
          ≡ true
      there = rw r.decided.tables_eq (added-found t a s.abuse_decision r.decided.tenant_eq)

      go :
          (((req.action ≡ "quarantine")
              × Held t a.id req (session d (tenant t) r.now) r.between r.after)
            ⊎ (((req.action == "quarantine") ≡ false) × (r.after ≡ r.between)))
          → QuarantineOk r.between
          → QuarantineOk r.after
      go (inl (_, held)) k =
          QuarantineOk-Held t a.id req (session d (tenant t) r.now) r.between r.after there held k
      go (inr (_, same)) k = rw same k

  abuse_router-Ok :
      (req : AbuseRequest) (w : World Quarantine)
      → QuarantineOk w.tables
      → QuarantineOk (abuse_router d caller req w).tables
  unfolding abuse_router list_quarantine select_held
  abuse_router-Ok (post_decisions t req) w h =
      Commits-keeps (Recorded d t caller req w.tables) QuarantineOk w.tables _
        (λ a s' r. Recorded-Ok t req w.tables a s' r h) h (record_decision-Commits d t caller req w)
  abuse_router-Ok (get_quarantine t) w h =
      Commits-keeps (λ _ s'. s' ≡ w.tables) QuarantineOk w.tables _ (λ _ s' same. rw same h) h
        (statement-Commits (λ _ s'. s' ≡ w.tables) db d (tenant t) select_held w
          λ now id a s ran. ground arith)
  abuse_router-Ok (post_release t item_id) w h =
      Commits-keeps (Release d t caller item_id w.tables) QuarantineOk w.tables _
        (λ i s' q. rw q.tables_eq (QuarantineOk-audit q.between _ (QuarantineOk-released q.row h)))
        h (release_item-Commits d t caller item_id w)
  abuse_router-Ok (post_report t item_id req) w h =
      Commits-keeps (Report d t caller item_id req w.tables) QuarantineOk w.tables _
        (λ i s' q. rw q.tables_eq (
          QuarantineOk-audit q.between _
            (QuarantineOk-reported (verdict_known req q.valid) q.row h)))
        h (report_item-Commits d t caller item_id req w)

-- From well-formed tables, any requests by any callers, over a connection that fails at any point,
-- leave well-formed tables: decisions with admitted directions, actions and verdicts; items that are
-- held and unresolved, or released with a time and an actor, and reported as spam, as ham or not at
-- all; each item with its decision, of the same tenant; and at most one item for each message of a
-- tenant.
pub abuse_serve-QuarantineOk :
    (d : Db) (requests : List (Caller × AbuseRequest)) (w : World Quarantine)
    → QuarantineOk w.tables
    → QuarantineOk (abuse_serve d requests w).tables
unfolding abuse_serve
abuse_serve-QuarantineOk d [] w h = h
abuse_serve-QuarantineOk d ((caller, req) ∷ rest) w h =
    abuse_serve-QuarantineOk d rest (abuse_router d caller req w) (abuse_router-Ok d caller req w h)
