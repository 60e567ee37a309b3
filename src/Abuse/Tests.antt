-- ===== src/Abuse/Tests.antt =====
-- A quarantine with one held message, and requests to it.
use opengroupware.Prelude.{
  ℕ, ◌≢◌, inl, arith, any, ◌+◌, refl, true, none, some, List, [], ◌∷◌, float_ℕ, find?,
}
use opengroupware.Db.World.{World, answered}
use opengroupware.Db.Connect.{Db}
use opengroupware.Db.Commits.{Commits}
use opengroupware.Db.Audit.{null}
use opengroupware.Auth.Caller.{Caller}
use opengroupware.Abuse.Models.{contains, QuarantineItem, RecordDecision, ReportFeedback}
use opengroupware.Abuse.Tables.{Quarantine, decision_check}
use opengroupware.Abuse.Routes.{list_quarantine, record_decision, release_item}
use opengroupware.Abuse.Api.{
  AbuseRequest, post_decisions, get_quarantine, post_release, post_report, abuse_serve,
}
use opengroupware.Abuse.WellFormed.{QuarantineOk}
use opengroupware.Abuse.Invariant.{abuse_serve-QuarantineOk}
use opengroupware.Abuse.Isolation.{SameOf, abuse_serve-SameOf}
use opengroupware.Abuse.Listing.{QuarantineShown, list_quarantine-mine}
use opengroupware.Abuse.Live.{Holds, ReleasedOnce, release_item-once}
use opengroupware.Db.Session.{visible}
use opengroupware.Abuse.Workflow.{Evolves, abuse_serve-Evolves}
use opengroupware.Abuse.History.{AllKept, abuse_serve-AllKept}
use opengroupware.Abuse.Decisions.{DecisionKept, record_decision-DecisionKept}

abbrev held : QuarantineItem
held = record {
  id = 5;
  tenant_id = 1;
  decision_id = 4;
  message_ref = "m-1";
  recipient = "ann@acme.com";
  sender = "eve@evil.example";
  subject = "hello";
  reason = "spam (score 20.0)";
  status = "held";
  reported_as = none;
  held_at = 3;
  resolved_at = none;
  resolved_by = none;
}

abbrev one_held : Quarantine
one_held = record { abuse_decision = []; quarantine_item = held ∷ []; audit_log = [] }

abbrev world : World Quarantine
world = record {
  replies = λ _. answered;
  clock = λ n. 100 + n;
  uuids = λ n. 1000 + n;
  tick = 0;
  tables = one_held;
}

abbrev guarded : Db
guarded = record { rls = true }

abbrev admin : Caller
admin = record { subject = "admin"; tenant_id = some 1; roles = [] }

abbrev decision : RecordDecision
decision = record {
  message_ref = "m-2";
  direction = "inbound";
  recipient = "bob@acme.com";
  sender = "eve@evil.example";
  score = float_ℕ 17;
  action = "quarantine";
  verdict = "phishing";
  symbols = null;
  subject = "prize";
}

abbrev feedback : ReportFeedback
feedback = record { verdict = "ham" }

abbrev requests : List (Caller × AbuseRequest)
requests =
    (admin, post_decisions 1 decision)
    ∷ (admin, post_release 1 5)
    ∷ (admin, post_report 1 5 feedback)
    ∷ (admin, post_release 1 5)
    ∷ (admin, get_quarantine 1)
    ∷ []

abuse_serve-Evolves_example :
    Evolves (held ∷ []) (abuse_serve guarded requests world).tables.quarantine_item
abuse_serve-Evolves_example = abuse_serve-Evolves guarded requests world

abuse_serve-AllKept_example :
    AllKept (held ∷ []) (abuse_serve guarded requests world).tables.quarantine_item
abuse_serve-AllKept_example = abuse_serve-AllKept guarded requests world

record_decision-DecisionKept_example :
    Commits
      (DecisionKept guarded 1 admin decision one_held)
      one_held
      (record_decision guarded 1 admin decision world)
record_decision-DecisionKept_example = record_decision-DecisionKept guarded 1 admin decision world

held_is_found : Holds guarded 1 5 one_held held
unfolding find? visible
held_is_found now = refl

release_item-once_example :
    ReleasedOnce guarded 1 5 admin 100 held (release_item guarded 1 5 admin world)
release_item-once_example = release_item-once guarded 1 5 admin held world (λ n. refl) held_is_found

-- The same item with the decision that it came from.
abbrev decided : Quarantine
decided = record one_held {
  abuse_decision =
      record {
        id = 4;
        tenant_id = 1;
        message_ref = "m-1";
        direction = "inbound";
        recipient = "ann@acme.com";
        sender = "eve@evil.example";
        score = float_ℕ 20;
        action = "quarantine";
        verdict = "spam";
        symbols = null;
        scanned_at = 3;
      }
      ∷ [];
}

abbrev decided_world : World Quarantine
decided_world = record world { tables = decided }

decided-QuarantineOk : QuarantineOk decided
unfolding decision_check contains any
decided-QuarantineOk = record {
  decisions_ok = (refl, tt);
  items_ok = ((inl (refl, refl, refl), inl refl), tt);
  backed = (refl, tt);
  one_each = (refl, tt);
}

abuse_serve-QuarantineOk_example : QuarantineOk (abuse_serve guarded requests decided_world).tables
abuse_serve-QuarantineOk_example =
    abuse_serve-QuarantineOk guarded requests decided_world decided-QuarantineOk

two_is_other : ◌≢◌ {A = ℕ} 2 1
two_is_other e = ground arith

abuse_serve-SameOf_example : SameOf 2 decided (abuse_serve guarded requests decided_world).tables
abuse_serve-SameOf_example =
    abuse_serve-SameOf guarded requests 2 decided_world refl
      (two_is_other, (two_is_other, (two_is_other, (two_is_other, (two_is_other, tt)))))

list_quarantine-mine_example :
    Commits (QuarantineShown 1 decided) decided (list_quarantine guarded 1 decided_world)
list_quarantine-mine_example = list_quarantine-mine guarded 1 decided_world refl
