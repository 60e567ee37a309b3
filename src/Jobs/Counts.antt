-- ===== src/Jobs/Counts.antt =====
-- What the answer of a cycle counts.
use mathlib.Core.List.{append-nil, append_assoc}
use opengroupware.Prelude.{
  ℕ, suc, ◌+◌, ◌≤◌, ◌≡◌, refl, sym, ap, List, [], ◌∷◌, ◌++◌, ℤ, pos_part, ok, nat_eq, string_eq,
  arith, select, length, length-select-update, All, subst,
}
use opengroupware.Db.World.{World}
use opengroupware.Db.Connect.{Db}
use opengroupware.Db.Audit.{AuditRow}
use opengroupware.Db.Transaction.{platform, session}
use opengroupware.Admin.Tables.{Control, activated}
use opengroupware.Admin.Routes.{Provisioner}
use opengroupware.Jobs.Reconcile.{
  PendingRow, is_pending, is_pending_account, reconciled_entry, reconcile_once,
}
use opengroupware.Jobs.Effects.{UniqueIds, Activation, Run, done, activate}
use opengroupware.Jobs.Outcome.{IsRun, reconcile_once-IsRun}

-- The entries of a run, and what it takes from the pending accounts.
pub Run-entries :
    (d : Db) (n : ℕ) (s s' : Control)
    → Run d n s s'
    → (entries : List AuditRow) × (s'.audit_log ≡ s.audit_log ++ entries)
      × (length entries ≡ n)
      × All (λ (r : AuditRow). r.entry.action ≡ "account.reconciled") entries
Run-entries d n s s' (done _) = ([], sym (append-nil _), refl, tt)
Run-entries d n s s' (activate k _ t _ row a rest) =
    let (entries, grown, count, all) = Run-entries d k t s' rest in
    let first : AuditRow = record {
      entry = reconciled_entry row a.sesame_user_id;
      created_at = a.now;
    } in
    (
      first ∷ entries,
      rw (grown, a.tables_eq) (append_assoc s.audit_log (first ∷ []) entries),
      ap suc count,
      (refl, all),
    )

Activation-pending :
    (d : Db) (row : PendingRow) (s s' : Control)
    → Activation d row s s'
    → length (select is_pending s.accounts) ≡ suc (length (select is_pending s'.accounts))
Activation-pending d row s s' a =
    let sum =
      length-select-update is_pending (is_pending_account (session d platform a.now) row.id)
        (activated a.sesame_user_id a.now) s.accounts (λ r on. ground arith) (λ r on. refl) in
    rw a.tables_eq (omega (arith, sum, a.one))

-- A run of `n` activations leaves `n` pending accounts fewer.
pub Run-pending :
    (d : Db) (n : ℕ) (s s' : Control)
    → Run d n s s'
    → length (select is_pending s'.accounts) + n ≡ length (select is_pending s.accounts)
Run-pending d n s s' (done _) = omega arith
Run-pending d n s s' (activate k _ t _ row a rest) =
    omega (arith, Activation-pending d row s t a, Run-pending d k t s' rest)

-- A cycle that answers `n` has written exactly `n` entries, all of them `account.reconciled`, at the
-- end of the audit log, and has left exactly `n` pending accounts fewer; `n` is at most the batch.
-- Account identifiers are unique.
pub reconcile_once-counts :
    (d : Db) (provision : Provisioner) (batch : ℤ) (w : World Control)
    → UniqueIds w.tables
    → (n : ℕ) (w' : World Control) → reconcile_once d provision batch w ≡ (ok n, w')
    → (n ≤ pos_part batch)
      × (length (select is_pending w'.tables.accounts) + n
          ≡ length (select is_pending w.tables.accounts))
      × ((entries : List AuditRow) × (w'.tables.audit_log ≡ w.tables.audit_log ++ entries)
          × (length entries ≡ n)
          × All (λ (r : AuditRow). r.entry.action ≡ "account.reconciled") entries)
reconcile_once-counts d provision batch w unique n w' e =
    let (k, sum, few, run) =
      subst (IsRun d 0 (pos_part batch) w.tables) e
        (reconcile_once-IsRun d provision batch w unique) in
    let run' : Run d n w.tables w'.tables =
      subst (λ j. Run d j w.tables w'.tables) (omega (arith, sum)) run in
    (omega (arith, sum, few), Run-pending d n _ _ run', Run-entries d n _ _ run')
