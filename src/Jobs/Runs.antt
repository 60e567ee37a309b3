-- ===== src/Jobs/Runs.antt =====
-- The code's own orders of the steps of Jobs/Steps: the creation of an account, and a whole cycle.
use mathlib.Core.List.Memᴰ.{head, tail, append_left}
use mathlib.Core.List.{Memᴰ}
use opengroupware.Prelude.{ℕ, ◌+◌, ◌≡◌, refl, some, List, [], ◌∷◌, ◌++◌, ℤ, Result, ok, err}
use opengroupware.Db.Errors.{SqlError, ApiError}
use opengroupware.Db.World.{Uuid, World, next, continue}
use opengroupware.Db.Connect.{Db}
use opengroupware.Auth.Caller.{Caller}
use opengroupware.Admin.Models.{Account, CreateAccount}
use opengroupware.Admin.Tables.{Control}
use opengroupware.Admin.Routes.{
  AppState, Provisioner, maybe_provision, provision_into_sesame, create_account, answer,
}
use opengroupware.Jobs.Reconcile.{PendingRow, reconcile_row, reconcile_rows, reconcile_once}
use opengroupware.Jobs.Steps.{
  Started, System, first_transaction, note_account, note_rows, read_transaction, create, provision,
  read, reconcile, Trace, stay, go_on,
}

abbrev pub at : World Control → List Started → List PendingRow → System
at w started rows = record { tables = w.tables; started = started; rows = rows }

-- A path to a system of these tables.
abbrev pub Leads : AppState → Provisioner → System → Control → Type 0
Leads st sesame y s = (z : System) × Trace st sesame y z × (z.tables ≡ s)

-- A service with an identity client.
abbrev pub with_sesame : Db → Provisioner → AppState
with_sesame d sesame = record { db = d; sesame = some sesame }

module _ (d : Db) (sesame : Provisioner) where
  -- The creation of an account with its provisioning is a path of at most two steps.
  create_account-Leads :
      (t : Uuid) (caller : Caller) (req : CreateAccount) (w : World Control)
      (started : List Started) (rows : List PendingRow)
      → Leads
          (with_sesame d sesame)
          sesame
          (at w started rows)
          (create_account (with_sesame d sesame) t caller req w).1.tables
  unfolding create_account provision_into_sesame
  create_account-Leads t caller req w started rows =
      let y = at w started rows in
      go (first_transaction (with_sesame d sesame) t caller req w)
        (go_on y y _ (stay y) (create t caller req w y))
    where
      go :
          (r : Result ApiError Account × World Control)
          → Trace
              (with_sesame d sesame)
              sesame
              (at w started rows)
              (at r.1 (note_account t caller r.0 started) rows)
          → Leads
              (with_sesame d sesame)
              sesame
              (at w started rows)
              (continue r (λ account w'. answer (
                maybe_provision (with_sesame d sesame) t caller (some sesame) account w'))).1.tables
      go (err e, w') path = (at w' started rows, path, refl)
      go (ok a, w') path =
          let x : Started = record { tenant_id = t; caller = caller; account = a } in
          let z = at w' (x ∷ started) rows in
          (
            _,
            go_on (at w started rows) z _ path (provision x w'.tick (next w') z (head refl)),
            refl,
          )

module _ (st : AppState) (sesame : Provisioner) where
  -- The loop, over rows that have been read.
  rows-Leads :
      (y : System) (rows : List PendingRow) (n : ℕ) (w : World Control) (started : List Started)
      (all_rows : List PendingRow)
      → ((r : PendingRow) → Memᴰ r rows → Memᴰ r all_rows)
      → Trace st sesame y (at w started all_rows)
      → Leads st sesame y (reconcile_rows st.db sesame rows n w).1.tables
  unfolding reconcile_rows reconcile_row
  rows-Leads y [] n w started all_rows known path = (_, path, refl)
  rows-Leads y (row ∷ rows) n w started all_rows known path =
      go (reconcile_row st.db sesame row w)
        (go_on y (at w started all_rows) _ path
          (reconcile row w.tick (next w) (at w started all_rows) (known row (head refl))))
        λ k w' path'. rows-Leads y rows (n + k) w' started all_rows (λ r m. known r (tail m)) path'
    where
      go :
          (r : Result SqlError ℕ × World Control)
          → Trace st sesame y (at r.1 started all_rows)
          → ((k : ℕ) (w' : World Control)
              → Trace st sesame y (at w' started all_rows)
              → Leads st sesame y (reconcile_rows st.db sesame rows (n + k) w').1.tables)
          → Leads st sesame y
              (continue r λ k w'. reconcile_rows st.db sesame rows (n + k) w').1.tables
      go (err e, w') p rest = (_, p, refl)
      go (ok k, w') p rest = rest k w' p

  -- A whole cycle is a path.
  reconcile_once-Leads :
      (batch : ℤ) (w : World Control) (started : List Started) (rows : List PendingRow)
      → Leads st sesame (at w started rows) (reconcile_once st.db sesame batch w).1.tables
  unfolding reconcile_once
  reconcile_once-Leads batch w started rows =
      let y = at w started rows in
      go (read_transaction st batch w) (go_on y y _ (stay y) (read batch w y))
    where
      go :
          (r : Result SqlError (List PendingRow) × World Control)
          → Trace st sesame (at w started rows) (at r.1 started (note_rows r.0 rows))
          → Leads st sesame
              (at w started rows)
              (continue r λ pending w'. reconcile_rows st.db sesame pending 0 w').1.tables
      go (err e, w') path = (_, path, refl)
      go (ok found, w') path =
          rows-Leads (at w started rows) found 0 w' started (found ++ rows)
            (λ r m. append_left rows m) path

-- The step relation covers the code: the creation of an account with its provisioning, and a whole
-- cycle of the job runner, over connections that may fail anywhere, each reach by steps exactly the
-- tables that they leave, whatever other requests are in progress and whatever other rows were read.
pub handlers-Leads :
    (d : Db) (sesame : Provisioner) (t : Uuid) (caller : Caller) (req : CreateAccount) (batch : ℤ)
    (w : World Control) (started : List Started) (rows : List PendingRow)
    → Leads
        (with_sesame d sesame)
        sesame
        (at w started rows)
        (create_account (with_sesame d sesame) t caller req w).1.tables
      × Leads
          (with_sesame d sesame)
          sesame
          (at w started rows)
          (reconcile_once d sesame batch w).1.tables
handlers-Leads d sesame t caller req batch w started rows = (
  create_account-Leads d sesame t caller req w started rows,
  reconcile_once-Leads (with_sesame d sesame) sesame batch w started rows,
)
