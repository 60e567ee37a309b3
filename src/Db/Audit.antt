-- ===== src/Db/Audit.antt =====
-- crates/og-db/src/audit.rs: the append-only audit trail, for any database that has one.
use opengroupware.Prelude.{
  String, Bool, Option, List, [], ◌∷◌, ◌++◌, ℤ, Float64, nan, infinite, fin, Result, ok, err,
  if◌then◌else◌,
}
use opengroupware.Db.Errors.{SqlError, policy_violation}
use opengroupware.Db.World.{Uuid, Time}
use opengroupware.Db.Session.{Session, visible_entry}
use opengroupware.Db.Transaction.{Stmt, Tx, exec}

-- `serde_json::Value`. A `Uuid` is kept apart from the text that it is written as.
mutual
  pub data Value : Type 0 where
    null : Value
    int : ℤ → Value
    float : Float64 → Value
    boolean : Bool → Value
    text : String → Value
    uuid : Uuid → Value
    arr : Values → Value
    obj : Fields → Value

  pub data Values : Type 0 where
    nil : Values
    cons : Value → Values → Values

  pub data Fields : Type 0 where
    end : Fields
    field : String → Value → Fields → Fields

-- `json!` of an `f64` or an `f32`: serde_json has no value for an infinity or a NaN but `null`.
abbrev pub number : Float64 → Value
number nan = null
number (infinite negative) = null
number (fin negative k) = float (fin negative k)

-- The text of `entity_id`: a printed `Uuid`, or a path.
pub data EntityId : Type 0 where
  of_uuid : Uuid → EntityId
  of_path : String → EntityId

pub record AuditEntry : Type 0 where
  pub tenant_id : Option Uuid
  pub actor : String
  pub action : String
  pub entity_type : String
  pub entity_id : EntityId
  pub payload : Value

-- A row of `audit_log`. Its `id` is its position in the table.
pub record AuditRow : Type 0 where
  pub entry : AuditEntry
  pub created_at : Time

-- A database with an audit log: how the log is read and replaced, and what its foreign key admits.
pub record HasAudit (S : Type 0) : Type 0 where
  pub audit_log : S → List AuditRow
  pub set_audit_log : S → List AuditRow → S
  pub references : S → Option Uuid → Result SqlError Unit

abbrev pub audit_row : Session → AuditEntry → AuditRow
audit_row se e = record { entry = e; created_at = se.started }

module _ {S : Type 0} ⦃a : HasAudit S⦄ where
  abbrev append_row : Session → AuditEntry → S → Result SqlError Unit → Result SqlError (Unit × S)
  append_row se e s (ok _) = ok (tt, a.set_audit_log s (a.audit_log s ++ audit_row se e ∷ []))
  append_row se e s (err x) = err x

  unfoldable pub insert_audit : AuditEntry → Stmt S Unit
  insert_audit e se id s =
      if visible_entry se e.tenant_id
      then append_row se e s (a.references s e.tenant_id)
      else err policy_violation

  unfoldable pub record_entry : {E : Type 0} → (SqlError → E) → AuditEntry → Tx S E Unit
  unfolding exec insert_audit
  record_entry from e = exec from (insert_audit e)
