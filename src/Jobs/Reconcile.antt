-- ===== src/Jobs/Reconcile.antt =====
-- crates/job-runner/src/reconcile.rs, on the tables of crates/admin-api.
use opengroupware.Prelude.{
  ℕ, ◌+◌, String, Bool, true, false, ◌&&◌, some, List, [], ◌∷◌, ℤ, pos, negsuc, Result, ok, err,
  ◌==◌, nat_eq, string_eq, select, update, map, order_by, limit, length,
}
use opengroupware.Types.Provider.{ProviderError}
use opengroupware.Db.Errors.{SqlError, invalid_row_count}
use opengroupware.Db.World.{Uuid, Io, next, continue}
use opengroupware.Db.Session.{Session, visible}
use opengroupware.Db.Connect.{Db}
use opengroupware.Db.Transaction.{Stmt, Tx, pure, exec, ◌>>=◌, ◌>>◌, platform, transact}
use opengroupware.Db.Audit.{uuid, obj, end, field, of_uuid, AuditEntry, record_entry}
use opengroupware.Admin.Tables.{Control, control_audit, AccountRow, activated}
use opengroupware.Admin.Routes.{Provisioner}

pub record PendingRow : Type 0 where
  pub id : Uuid
  pub tenant_id : Uuid
  pub email : String
  pub display_name : String

abbrev pub pending_row : AccountRow → PendingRow
pending_row r = record {
  id = r.account.id;
  tenant_id = r.account.tenant_id;
  email = r.account.email;
  display_name = r.account.display_name;
}

abbrev pub is_pending : AccountRow → Bool
is_pending r = r.account.status == "pending_provisioning"

-- SELECT … WHERE status = 'pending_provisioning' ORDER BY created_at LIMIT $1; Postgres refuses a
-- negative limit.
unfoldable pub select_pending : ℤ → Stmt Control (List PendingRow)
select_pending (negsuc n) se id s = err invalid_row_count
select_pending (pos n) se id s = ok (
  map pending_row (
      limit n (
        order_by (λ (r : AccountRow). r.account.created_at)
          (select (λ (r : AccountRow). visible se r.account.tenant_id && is_pending r)
            s.accounts))),
  s,
)

abbrev pub is_pending_account : Session → Uuid → AccountRow → Bool
is_pending_account se id r = visible se r.account.tenant_id && (r.account.id == id && is_pending r)

-- UPDATE accounts SET status = 'active', … WHERE id = $1 AND status = 'pending_provisioning', and the
-- number of the rows that it affects.
unfoldable pub activate_pending : Uuid → Uuid → Stmt Control ℕ
activate_pending account_id sesame_user_id se id s = ok (
  length (select (is_pending_account se account_id) s.accounts),
  record s {
    accounts =
        update (is_pending_account se account_id) (activated sesame_user_id se.started) s.accounts;
  },
)

abbrev pub reconciled_entry : PendingRow → Uuid → AuditEntry
reconciled_entry row sesame_user_id = record {
  tenant_id = some row.tenant_id;
  actor = "job-runner";
  action = "account.reconciled";
  entity_type = "account";
  entity_id = of_uuid row.id;
  payload = obj (field "sesame_user_id" (uuid sesame_user_id) end);
}

-- `if updated == 1 { record(…); activated += 1 }`; the value is what is added to `activated`.
abbrev pub count_tx : Bool → PendingRow → Uuid → Tx Control SqlError ℕ
count_tx true row sesame_user_id = do
  record_entry (λ e. e) (reconciled_entry row sesame_user_id)
  pure 1
count_tx false row sesame_user_id = pure 0

abbrev pub persist_tx : PendingRow → Uuid → Tx Control SqlError ℕ
persist_tx row sesame_user_id = do
  updated ← exec (λ e. e) (activate_pending row.id sesame_user_id)
  count_tx (updated == 1) row sesame_user_id

-- The transaction for one row, if it could be provisioned.
abbrev pub persist : Db → PendingRow → Result ProviderError Uuid → Io Control SqlError ℕ
persist d row (err e) w = (ok 0, w)
persist d row (ok sesame_user_id) w = transact (λ e. e) d platform (persist_tx row sesame_user_id) w

-- One turn of the loop: the call of the identity service, outside any transaction, and what follows.
unfoldable pub reconcile_row : Db → Provisioner → PendingRow → Io Control SqlError ℕ
reconcile_row d provision row w =
    persist d row (provision w.tick row.email row.display_name) (next w)

-- The loop, with the number of accounts activated so far.
unfoldable pub reconcile_rows : Db → Provisioner → List PendingRow → ℕ → Io Control SqlError ℕ
unfolding reconcile_row
reconcile_rows d provision [] n w = (ok n, w)
reconcile_rows d provision (row ∷ rows) n w =
    continue (reconcile_row d provision row w) λ k w'. reconcile_rows d provision rows (n + k) w'

unfoldable pub reconcile_once : Db → Provisioner → ℤ → Io Control SqlError ℕ
unfolding reconcile_rows
reconcile_once d provision batch w =
    continue (transact (λ e. e) d platform (exec (λ e. e) (select_pending batch)) w)
      λ pending w'. reconcile_rows d provision pending 0 w'
