-- ===== src/Abuse/Routes.antt =====
-- The handlers of crates/abuse-api/src/routes.rs, each from its decoded request to its result.
use opengroupware.Prelude.{
  String, Bool, true, false, not, ◌||◌, Option, some, List, Result, ok, err, ok_or, ◌==◌, string_eq,
  if◌then◌else◌,
}
use opengroupware.Db.Errors.{ApiError, not_found, validation, db}
use opengroupware.Db.World.{Uuid, Io}
use opengroupware.Db.Connect.{Db}
use opengroupware.Db.Transaction.{Tx, pure, from_result, exec, ◌>>=◌, ◌>>◌, tenant, transact}
use opengroupware.Db.Audit.{
  Value, null, number, text, arr, nil, obj, end, field, of_uuid, AuditEntry, record_entry,
}
use opengroupware.Auth.Caller.{Caller, actor}
use opengroupware.Abuse.Models.{
  AbuseDecision, QuarantineItem, RecordDecision, ReportFeedback, valid_actions, valid_verdicts,
  contains,
}
use opengroupware.Abuse.Tables.{
  Quarantine, quarantine_audit, insert_decision, insert_item, select_held, release, report,
}

-- The two guards of `record_decision`, in their order.
unfoldable pub validate_decision : RecordDecision → Result ApiError Unit
validate_decision req =
    if not (contains valid_actions req.action)
    then err (
        validation
          "action must be one of [\"accept\", \"junk\", \"quarantine\", \"reject\", \"discard\"]")
    else if not (contains valid_verdicts req.verdict)
    then err (validation "verdict must be one of [\"ham\", \"spam\", \"phishing\", \"malware\"]")
    else ok tt

unfoldable pub symbols_of : Value → Value
symbols_of null = arr nil
symbols_of v = v

abbrev pub decision_entry : Uuid → Caller → RecordDecision → AbuseDecision → AuditEntry
decision_entry tenant_id caller req d = record {
  tenant_id = some tenant_id;
  actor = actor caller;
  action = "abuse.decision";
  entity_type = "abuse_decision";
  entity_id = of_uuid d.id;
  payload = obj (
      field "action" (text req.action) (
        field "verdict" (text req.verdict)
          (field "score" (number req.score) (field "message_ref" (text req.message_ref) end))));
}

-- The statement of the branch `if req.action == "quarantine"`.
abbrev pub hold : Bool → Uuid → Uuid → RecordDecision → Tx Quarantine ApiError Unit
hold true tenant_id decision_id req = exec db (insert_item tenant_id decision_id req)
hold false tenant_id decision_id req = pure tt

-- What follows the insertion of the decision.
abbrev pub held_tx :
    Bool → Uuid → Caller → RecordDecision → AbuseDecision → Tx Quarantine ApiError AbuseDecision
held_tx quarantined tenant_id caller req d = do
  hold quarantined tenant_id d.id req
  record_entry db (decision_entry tenant_id caller req d)
  pure d

abbrev pub record_decision_tx :
    Uuid → Caller → RecordDecision → Tx Quarantine ApiError AbuseDecision
record_decision_tx tenant_id caller req = do
  d ← exec db (insert_decision tenant_id req (symbols_of req.symbols))
  held_tx (req.action == "quarantine") tenant_id caller req d

-- `…?` before anything else.
abbrev pub validated :
    {A : Type 0} → Result ApiError Unit → Io Quarantine ApiError A → Io Quarantine ApiError A
validated (ok _) m w = m w
validated (err e) m w = (err e, w)

unfoldable pub record_decision :
    Db → Uuid → Caller → RecordDecision → Io Quarantine ApiError AbuseDecision
record_decision d tenant_id caller req =
    validated (validate_decision req)
      (transact db d (tenant tenant_id) (record_decision_tx tenant_id caller req))

unfoldable pub list_quarantine : Db → Uuid → Io Quarantine ApiError (List QuarantineItem)
list_quarantine d tenant_id = transact db d (tenant tenant_id) (exec db select_held)

abbrev item_entry : Uuid → Caller → String → QuarantineItem → Value → AuditEntry
item_entry tenant_id caller action i payload = record {
  tenant_id = some tenant_id;
  actor = actor caller;
  action = action;
  entity_type = "quarantine_item";
  entity_id = of_uuid i.id;
  payload = payload;
}

-- `item.ok_or(ApiError::NotFound)?`, the audit entry for the item, and the item.
abbrev pub item_tx :
    (QuarantineItem → AuditEntry) → Option QuarantineItem → Tx Quarantine ApiError QuarantineItem
item_tx e found = do i ← from_result (ok_or found not_found); record_entry db (e i); pure i

abbrev pub release_entry : Uuid → Caller → QuarantineItem → AuditEntry
release_entry tenant_id caller i =
    item_entry tenant_id caller "quarantine.release" i
      (obj (field "message_ref" (text i.message_ref) end))

abbrev pub release_tx : Uuid → Uuid → Caller → Tx Quarantine ApiError QuarantineItem
release_tx tenant_id item_id caller = do
  found ← exec db (release item_id (actor caller))
  item_tx (release_entry tenant_id caller) found

unfoldable pub release_item : Db → Uuid → Uuid → Caller → Io Quarantine ApiError QuarantineItem
release_item d tenant_id item_id caller =
    transact db d (tenant tenant_id) (release_tx tenant_id item_id caller)

unfoldable pub validate_feedback : ReportFeedback → Result ApiError Unit
validate_feedback req =
    if req.verdict == "spam" || req.verdict == "ham"
    then ok tt
    else err (validation "verdict must be 'spam' or 'ham'")

abbrev pub report_entry : Uuid → Caller → ReportFeedback → QuarantineItem → AuditEntry
report_entry tenant_id caller req i =
    item_entry tenant_id caller "quarantine.report" i
      (obj (field "reported_as" (text req.verdict) (field "message_ref" (text i.message_ref) end)))

abbrev pub report_tx : Uuid → Uuid → Caller → ReportFeedback → Tx Quarantine ApiError QuarantineItem
report_tx tenant_id item_id caller req = do
  found ← exec db (report item_id req.verdict)
  item_tx (report_entry tenant_id caller req) found

unfoldable pub report_item :
    Db → Uuid → Uuid → Caller → ReportFeedback → Io Quarantine ApiError QuarantineItem
report_item d tenant_id item_id caller req =
    validated (validate_feedback req)
      (transact db d (tenant tenant_id) (report_tx tenant_id item_id caller req))
