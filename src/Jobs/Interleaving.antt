-- ===== src/Jobs/Interleaving.antt =====
-- What holds of the tables while requests and the job runner take turns.
use mathlib.Core.List.{Memᴰ}
use mathlib.Core.List.Memᴰ.{head, tail, not-nil}
use opengroupware.Prelude.{
  String, ◌≡◌, sym, subst, List, [], ◌∷◌, inl, inr, Result, ok, err, All, All-append, All-weaken,
}
use opengroupware.Db.Errors.{SqlError, ApiError}
use opengroupware.Db.World.{Uuid, World}
use opengroupware.Db.Transaction.{platform}
use opengroupware.Db.Commits.{Commits, Commits-keeps, statement-Commits}
use opengroupware.Auth.Caller.{Caller}
use opengroupware.Admin.Models.{Account}
use opengroupware.Admin.Tables.{Control}
use opengroupware.Admin.Routes.{AppState, Provisioner}
use opengroupware.Admin.Api.{router}
use opengroupware.Admin.Accounts.{AccountCreated, created-Commits, provisioned-ProvisionEffect}
use opengroupware.Admin.WellFormed.{WellFormed}
use opengroupware.Admin.Invariant.{WellFormed-created, router-WellFormed, WellFormed-provisioned}
use opengroupware.Jobs.Reconcile.{PendingRow, select_pending}
use opengroupware.Jobs.Rows.{IsKnown, IsOwned, Change, same, Change-IsOwned, Change-IsKnown}
use opengroupware.Jobs.Turns.{
  IsIdempotent, short-accounts, Opens, first_transaction-Opens, provisioned-Change, persist-Change,
  persist-WellFormed, select_pending-IsKnown,
}
use opengroupware.Jobs.Steps.{
  Started, System, first_transaction, note_account, note_rows, to_now, read_transaction, Step,
  short, create, provision, read, reconcile, Trace, stay, go_on,
}

-- Every request in progress and every row that was read is about an account that is there.
pub record Sound (identity : String → Uuid) (y : System) : Type 0 where
  pub well_formed : WellFormed y.tables
  pub owned : IsOwned identity y.tables.accounts
  pub started_known :
      All (λ (x : Started). IsKnown x.account.id x.account.email y.tables.accounts) y.started
  pub rows_known : All (λ (r : PendingRow). IsKnown r.id r.email y.tables.accounts) y.rows

module _ {A : Type 0} (P : A → Type 0) where
  All-Mem : (x : A) (xs : List A) → Memᴰ x xs → All P xs → P x
  All-Mem x [] m h = absurd (not-nil m)
  All-Mem x (y ∷ ys) (head e) (p, _) = subst P (sym e) p
  All-Mem x (y ∷ ys) (tail m) (_, h) = All-Mem x ys m h

module _ (identity : String → Uuid) where
  -- The accounts have changed, and the tables are well formed: what was known stays known.
  changed-Sound :
      (y : System) (t : Control)
      → Sound identity y
      → WellFormed t
      → Change identity y.tables.accounts t.accounts
      → Sound identity (record y { tables = t })
  changed-Sound y t h well_formed c = record {
    well_formed = well_formed;
    owned = Change-IsOwned c h.owned;
    started_known =
        All-weaken _ _ y.started (λ x k. Change-IsKnown x.account.id x.account.email c k)
          h.started_known;
    rows_known = All-weaken _ _ y.rows (λ r k. Change-IsKnown r.id r.email c k) h.rows_known;
  }

  module _ where
    created-Sound :
        (t : Uuid) (caller : Caller) (y : System) (r : Result ApiError Account × World Control)
        → Sound identity y
        → WellFormed r.1.tables
        → Opens identity y.tables r
        → Sound identity
            (record y { tables = r.1.tables; started = note_account t caller r.0 y.started })
    created-Sound t caller y (err e, w) h well_formed c = changed-Sound y w.tables h well_formed c
    created-Sound t caller y (ok a, w) h well_formed (c, known) =
        let s = changed-Sound y w.tables h well_formed c in
        record {
          well_formed = s.well_formed;
          owned = s.owned;
          started_known = (known, s.started_known);
          rows_known = s.rows_known;
        }

    -- What the reading transaction of a cycle leaves.
    abbrev Reads : Control → List PendingRow → Control → Type 0
    Reads s rows s' = All (λ (r : PendingRow). IsKnown r.id r.email s.accounts) rows × (s' ≡ s)

    read-Sound :
        (y : System) (r : Result SqlError (List PendingRow) × World Control)
        → Sound identity y
        → Commits (Reads y.tables) y.tables r
        → Sound identity (record y { tables = r.1.tables; rows = note_rows r.0 y.rows })
    read-Sound y (ok found, w) h (known, unchanged) = rw unchanged (record {
      well_formed = h.well_formed;
      owned = h.owned;
      started_known = h.started_known;
      rows_known = All-append _ found y.rows known h.rows_known;
    })
    read-Sound y (err e, w) h (inl unchanged) = rw unchanged h
    read-Sound y (err e, w) h (inr (_, (_, unchanged))) = rw unchanged h

  Step-Sound :
      (st : AppState) (sesame : Provisioner) (y z : System)
      → IsIdempotent sesame identity
      → Step st sesame y z
      → Sound identity y
      → Sound identity z
  Step-Sound st sesame y z one (short caller req w _ is_short) h =
      changed-Sound y (router st caller req (to_now y w)).tables h
        (router-WellFormed st caller req (to_now y w) h.well_formed)
        (rw (short-accounts st caller req (to_now y w) is_short) (same y.tables.accounts))
  Step-Sound st sesame y z one (create t caller req w _) h =
      created-Sound t caller y (first_transaction st t caller req (to_now y w)) h
        (Commits-keeps (AccountCreated st t caller req y.tables) WellFormed y.tables _
          (λ a s' c. WellFormed-created st caller t req y.tables a s' c h.well_formed) h.well_formed
          (created-Commits st t caller req (to_now y w)))
        (first_transaction-Opens identity st t caller req (to_now y w))
  Step-Sound st sesame y z one (provision x n w _ mem) h =
      let answer = sesame n x.account.email x.account.display_name in
      changed-Sound y _ h
        (WellFormed-provisioned st x.caller x.tenant_id x.account y.tables _ _
          (provisioned-ProvisionEffect st x.tenant_id x.caller x.account answer (to_now y w))
          h.well_formed)
        (provisioned-Change identity st x.tenant_id x.caller x.account answer (to_now y w)
          (one n x.account.email x.account.display_name)
          (All-Mem _ x y.started mem h.started_known))
  Step-Sound st sesame y z one (read batch w _) h =
      read-Sound y (read_transaction st batch (to_now y w)) h (
        statement-Commits (Reads y.tables) (λ e. e) st.db platform (select_pending batch)
          (to_now y w)
          λ now id rows s' ran.
            select_pending-IsKnown st.db batch now id rows y.tables s' h.owned.0 ran)
  Step-Sound st sesame y z one (reconcile row n w _ mem) h =
      let answer = sesame n row.email row.display_name in
      changed-Sound y _ h (persist-WellFormed st.db row answer (to_now y w) h.owned.0 h.well_formed)
        (persist-Change identity st.db row answer (to_now y w) (one n row.email row.display_name)
          (All-Mem _ row y.rows mem h.rows_known))

-- Requests and cycles of the job runner take turns in any order, and connections fail at any point. If
-- the identity service answers for an address always with the same user, then in every state that is
-- reached the tables are well formed, and each active account has the user of its own address,
-- although the activation of a request is not guarded against one by the job runner.
pub Trace-Sound :
    (st : AppState) (sesame : Provisioner) (identity : String → Uuid) (y z : System)
    → IsIdempotent sesame identity
    → Trace st sesame y z
    → Sound identity y
    → Sound identity z
Trace-Sound st sesame identity y z one (stay _) h = h
Trace-Sound st sesame identity y z one (go_on _ x _ path step) h =
    Step-Sound identity st sesame x z one step (Trace-Sound st sesame identity y x one path h)
