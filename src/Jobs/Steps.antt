-- ===== src/Jobs/Steps.antt =====
-- The request path of crates/admin-api and the loop of crates/job-runner side by side on one database:
-- between the transactions of one, those of the other may run. A step is one transaction, as the
-- code opens it, over a connection that may fail in it; calls of the identity service happen between
-- steps.
use opengroupware.Prelude.{ℕ, List, ◌∷◌, ◌++◌, ℤ, Result, ok, err}
use opengroupware.Db.Errors.{SqlError, ApiError, db}
use opengroupware.Db.World.{Uuid, World, Io, with_tables}
use opengroupware.Db.Transaction.{tenant, platform, transact, exec}
use opengroupware.Auth.Caller.{Caller}
use opengroupware.Admin.Models.{Account, CreateAccount}
use opengroupware.Admin.Validate.{validate_local_part}
use opengroupware.Admin.Tables.{Control}
use opengroupware.Admin.Routes.{AppState, Provisioner, validated, create_account_tx, provisioned}
use opengroupware.Admin.Api.{Request, post_accounts, router}
use opengroupware.Jobs.Reconcile.{PendingRow, select_pending, persist}
use mathlib.Core.List.{Memᴰ}

-- An account that a request has created and not yet provisioned.
pub record Started : Type 0 where
  pub tenant_id : Uuid
  pub caller : Caller
  pub account : Account

-- The tables, the requests between their two transactions, and the rows that cycles of the job
-- runner have read.
pub record System : Type 0 where
  pub tables : Control
  pub started : List Started
  pub rows : List PendingRow

-- The first transaction of `create_account`.
abbrev pub first_transaction :
    AppState → Uuid → Caller → CreateAccount → Io Control ApiError Account
first_transaction st t caller req =
    validated (validate_local_part req.local_part)
      (transact db st.db (tenant t) (create_account_tx t caller req))

abbrev pub note_account : Uuid → Caller → Result ApiError Account → List Started → List Started
note_account t caller (ok a) l = record { tenant_id = t; caller = caller; account = a } ∷ l
note_account t caller (err e) l = l

abbrev pub note_rows : Result SqlError (List PendingRow) → List PendingRow → List PendingRow
note_rows (ok found) l = found ++ l
note_rows (err e) l = l

-- Every request but the creation of an account is one transaction.
abbrev pub IsShort : Request → Type 0
IsShort (post_accounts t req) = ⊥
IsShort _ = Unit

-- A connection to the tables of now.
abbrev pub to_now : System → World Control → World Control
to_now y w = with_tables w y.tables

-- The transaction of a cycle that reads its rows.
abbrev pub read_transaction : AppState → ℤ → Io Control SqlError (List PendingRow)
read_transaction st batch = transact (λ e. e) st.db platform (exec (λ e. e) (select_pending batch))

pub data Step (st : AppState) (sesame : Provisioner) : System → System → Type 0 where
  short :
      (caller : Caller) (req : Request) (w : World Control) (y : System)
      → IsShort req
      → Step st sesame y (record y { tables = (router st caller req (to_now y w)).tables })
  create :
      (t : Uuid) (caller : Caller) (req : CreateAccount) (w : World Control) (y : System)
      → Step st sesame y (record y {
        tables = (first_transaction st t caller req (to_now y w)).1.tables;
        started =
            note_account t caller (first_transaction st t caller req (to_now y w)).0 y.started;
      })
  provision :
      (x : Started) (n : ℕ) (w : World Control) (y : System)
      → Memᴰ x y.started
      → Step st sesame y (record y {
        tables =
            (provisioned st x.tenant_id x.caller x.account
              (sesame n x.account.email x.account.display_name)
              (to_now y w)).1.tables;
      })
  read :
      (batch : ℤ) (w : World Control) (y : System)
      → Step st sesame y (record y {
        tables = (read_transaction st batch (to_now y w)).1.tables;
        rows = note_rows (read_transaction st batch (to_now y w)).0 y.rows;
      })
  reconcile :
      (row : PendingRow) (n : ℕ) (w : World Control) (y : System)
      → Memᴰ row y.rows
      → Step st sesame y (record y {
        tables = (persist st.db row (sesame n row.email row.display_name) (to_now y w)).1.tables;
      })

pub data Trace (st : AppState) (sesame : Provisioner) : System → System → Type 0 where
  stay : (y : System) → Trace st sesame y y
  go_on : (x y z : System) → Trace st sesame x y → Step st sesame y z → Trace st sesame x z
