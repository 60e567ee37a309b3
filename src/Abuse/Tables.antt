-- ===== src/Abuse/Tables.antt =====
-- The tables of crates/abuse-api/migrations/0001_abuse.sql and the statements of
-- crates/abuse-api/src/routes.rs on them.
use opengroupware.Prelude.{
  String, Bool, not, ◌&&◌, ◌||◌, Option, none, some, List, [], ◌∷◌, ◌++◌, ok, err, ◌==◌, nat_eq,
  string_eq, any, find?, select, update, order_by_desc, if◌then◌else◌,
}
use opengroupware.Prelude.Decimal.{◌⊕◌, fmt1}
use opengroupware.Db.Errors.{unique_violation, check_violation, policy_violation}
use opengroupware.Db.World.{Uuid, Time}
use opengroupware.Db.Session.{Session, visible}
use opengroupware.Db.Transaction.{Stmt}
use opengroupware.Db.Audit.{Value, AuditRow, HasAudit}
use opengroupware.Abuse.Models.{
  AbuseDecision, QuarantineItem, RecordDecision, valid_actions, valid_verdicts, contains,
}

pub record Quarantine : Type 0 where
  pub abuse_decision : List AbuseDecision
  pub quarantine_item : List QuarantineItem
  pub audit_log : List AuditRow

-- This database's audit log has no foreign key.
instance abbrev pub quarantine_audit : HasAudit Quarantine
quarantine_audit = record {
  audit_log = λ q. q.audit_log;
  set_audit_log = λ q log. record q { audit_log = log };
  references = λ q t. ok tt;
}

-- The CHECK constraints of `abuse_decision`.
unfoldable pub decision_check : String → String → String → Bool
unfolding contains
decision_check direction action verdict =
    (direction == "inbound" || direction == "outbound")
    && (contains valid_actions action && contains valid_verdicts verdict)

-- INSERT INTO abuse_decision … RETURNING …
unfoldable pub insert_decision : Uuid → RecordDecision → Value → Stmt Quarantine AbuseDecision
insert_decision tenant_id req symbols se id q =
    let row : AbuseDecision = record {
      id = id;
      tenant_id = tenant_id;
      message_ref = req.message_ref;
      direction = req.direction;
      recipient = req.recipient;
      sender = req.sender;
      score = req.score;
      action = req.action;
      verdict = req.verdict;
      symbols = symbols;
      scanned_at = se.started;
    } in
    if not (visible se tenant_id)
    then err policy_violation
    else if not (decision_check req.direction req.action req.verdict)
    then err check_violation
    else if any (λ (r : AbuseDecision). r.id == id) q.abuse_decision
    then err unique_violation
    else ok (row, record q { abuse_decision = q.abuse_decision ++ row ∷ [] })

-- UNIQUE (tenant_id, message_ref)
abbrev pub same_message : Uuid → String → QuarantineItem → Bool
same_message tenant_id message_ref r = r.tenant_id == tenant_id && r.message_ref == message_ref

-- `format!("{} (score {:.1})", req.verdict, req.score)`
unfoldable pub reason_of : RecordDecision → String
reason_of req = req.verdict ⊕ " (score " ⊕ fmt1 req.score ⊕ ")"

abbrev pub held_item : Uuid → Uuid → RecordDecision → Uuid → Time → QuarantineItem
held_item tenant_id decision_id req id now = record {
  id = id;
  tenant_id = tenant_id;
  decision_id = decision_id;
  message_ref = req.message_ref;
  recipient = req.recipient;
  sender = req.sender;
  subject = req.subject;
  reason = reason_of req;
  status = "held";
  reported_as = none;
  held_at = now;
  resolved_at = none;
  resolved_by = none;
}

-- INSERT INTO quarantine_item … ON CONFLICT (tenant_id, message_ref) DO NOTHING. The decision that
-- the row refers to was inserted by the same transaction.
unfoldable pub insert_item : Uuid → Uuid → RecordDecision → Stmt Quarantine Unit
insert_item tenant_id decision_id req se id q =
    if not (visible se tenant_id)
    then err policy_violation
    else if any (same_message tenant_id req.message_ref) q.quarantine_item
    then ok (tt, q)
    else if any (λ (r : QuarantineItem). r.id == id) q.quarantine_item
    then err unique_violation
    else ok (
      tt,
      record q {
        quarantine_item =
            q.quarantine_item ++ held_item tenant_id decision_id req id se.started ∷ [];
      },
    )

-- SELECT … FROM quarantine_item WHERE status = 'held' ORDER BY held_at DESC
unfoldable pub select_held : Stmt Quarantine (List QuarantineItem)
select_held se id q = ok (
  order_by_desc (λ (r : QuarantineItem). r.held_at)
      (select (λ (r : QuarantineItem). visible se r.tenant_id && r.status == "held")
        q.quarantine_item),
  q,
)

-- `UPDATE … RETURNING …` with `fetch_optional`, at rows picked by their primary key.
abbrev pub updated_item :
    (QuarantineItem → QuarantineItem)
    → (QuarantineItem → Bool)
    → Quarantine
    → Option QuarantineItem
    → Option QuarantineItem × Quarantine
updated_item f p q none = (none, q)
updated_item f p q (some r) =
    (some (f r), record q { quarantine_item = update p f q.quarantine_item })

abbrev pub is_held : Session → Uuid → QuarantineItem → Bool
is_held se item_id r = visible se r.tenant_id && (r.id == item_id && r.status == "held")

abbrev pub released : String → Time → QuarantineItem → QuarantineItem
released actor now r = record r {
  status = "released";
  resolved_at = some now;
  resolved_by = some actor;
}

-- UPDATE quarantine_item SET status = 'released', … WHERE id = $1 AND status = 'held' RETURNING …
unfoldable pub release : Uuid → String → Stmt Quarantine (Option QuarantineItem)
release item_id actor se id q = ok (
    updated_item (released actor se.started) (is_held se item_id) q
      (find? (is_held se item_id) q.quarantine_item))

abbrev pub is_item : Session → Uuid → QuarantineItem → Bool
is_item se item_id r = visible se r.tenant_id && r.id == item_id

abbrev pub reported : String → QuarantineItem → QuarantineItem
reported verdict r = record r { reported_as = some verdict }

-- UPDATE quarantine_item SET reported_as = $2 WHERE id = $1 RETURNING …, where the column's CHECK
-- allows 'spam' and 'ham'.
unfoldable pub report : Uuid → String → Stmt Quarantine (Option QuarantineItem)
report item_id verdict se id q =
    let found = find? (is_item se item_id) q.quarantine_item in
    if any (is_item se item_id) q.quarantine_item && not (verdict == "spam" || verdict == "ham")
    then err check_violation
    else ok (updated_item (reported verdict) (is_item se item_id) q found)
