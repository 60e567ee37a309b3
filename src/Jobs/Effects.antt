-- ===== src/Jobs/Effects.antt =====
-- One activation by Jobs/Reconcile, and the runs that are made of them.
use opengroupware.Prelude.{
  ℕ, suc, ◌+◌, ◌≤◌, ◌≡◌, ◌∙◌, refl, sym, ap, Bool, true, false, List, [], ◌∷◌, ◌⊎◌, inl, inr, ok,
  ◌==◌, nat_eq, string_eq, nat_beq_iff, Bool-cases, arith, any, any-weaken, select, select-none,
  update, update-none, length, Distinct, Distinct-update, subst,
}
use opengroupware.Db.World.{Uuid, Time, World}
use opengroupware.Db.Connect.{Db}
use opengroupware.Db.Transaction.{platform, session, transact}
use opengroupware.Db.Commits.{Commits, Yields, transact-Commits, exec-Yields, record_entry-Yields}
use opengroupware.Admin.Tables.{Control, control_audit, AccountRow, activated}
use opengroupware.Admin.Effects.{audited}
use opengroupware.Jobs.Reconcile.{
  PendingRow, is_pending_account, activate_pending, reconciled_entry, count_tx, persist_tx,
}

abbrev pub UniqueIds : Control → Type 0
UniqueIds s = Distinct (λ (r : AccountRow). r.account.id) s.accounts

-- Exactly one pending account becomes active, with the identity that it was given, and the audit
-- entry for it is written.
pub record Activation (d : Db) (row : PendingRow) (s s' : Control) : Type 0 where
  pub now : Time
  pub sesame_user_id : Uuid
  pub one : length (select (is_pending_account (session d platform now) row.id) s.accounts) ≡ 1
  pub tables_eq :
      s'
      ≡ audited now (reconciled_entry row sesame_user_id) (record s {
        accounts =
            update
              (is_pending_account (session d platform now) row.id)
              (activated sesame_user_id now)
              s.accounts;
      })

-- A number of activations, one after another.
pub data Run (d : Db) : ℕ → Control → Control → Type 0 where
  done : (s : Control) → Run d 0 s s
  activate :
      (n : ℕ) (s t u : Control) (row : PendingRow)
      → Activation d row s t
      → Run d n t u
      → Run d (suc n) s u

pub Run-append :
    {d : Db} (k m n : ℕ) (s t u : Control) → k ≡ m + n → Run d m s t → Run d n t u → Run d k s u
Run-append {d} k m n s t u e (done _) r = subst (λ j. Run d j s u) (omega (arith, e)) r
Run-append {d} k m n s t u e (activate l _ s' _ row a q) r =
    subst (λ j. Run d j s u) (omega (arith, e))
      (activate (l + n) s s' u row a (Run-append (l + n) l n s' t u refl q r))

-- At most one row has an identifier.
matches-one :
    (x : Uuid) (p : AccountRow → Bool) (rows : List AccountRow)
    → ((r : AccountRow) → p r ≡ true → r.account.id ≡ x)
    → Distinct (λ (r : AccountRow). r.account.id) rows
    → length (select p rows) ≤ 1
unfolding select
matches-one x p [] id_of d = omega arith
matches-one x p (r ∷ rows) id_of (fresh, d) = elim (Bool-cases (p r)) [
  | inl on ↦
      let others : any p rows ≡ false =
        any-weaken (λ (y : AccountRow). y.account.id == r.account.id) p rows
          (λ y other. elim (Bool-cases (p y)) [
            | inl also ↦ absurd (
                ground (
                  arith,
                  other,
                  (nat_beq_iff y.account.id r.account.id).1 (id_of y also ∙ sym (id_of r on)),
                ))
            | inr off ↦ off
          ])
          fresh in
      rw (on, select-none p rows others) (omega arith)
  | inr off ↦ rw off (matches-one x p rows id_of d)
]

module _ (d : Db) (row : PendingRow) where
  -- Nothing, or one activation.
  abbrev pub Persisted : Control → ℕ → Control → Type 0
  Persisted s k s' = ((k ≡ 0) × (s' ≡ s)) ⊎ ((k ≡ 1) × Activation d row s s')

  -- The tables after the guarded update.
  abbrev changed : Control → Uuid → Time → Control
  changed s uid now = record s {
    accounts =
        update (is_pending_account (session d platform now) row.id) (activated uid now) s.accounts;
  }

  abbrev matching : Control → Time → ℕ
  matching s now = length (select (is_pending_account (session d platform now) row.id) s.accounts)

  unmatched : (s : Control) (uid : Uuid) (now : Time) → matching s now ≡ 0 → changed s uid now ≡ s
  unmatched s uid now none =
      ap (λ l. record s { accounts = l })
        (update-none (is_pending_account (session d platform now) row.id) (activated uid now)
          s.accounts none)

  counted-Yields :
      (s : Control) (uid : Uuid) (now : Time) (w : World Control)
      → UniqueIds s
      → w.tables ≡ changed s uid now
      → (b : Bool) → (matching s now == 1) ≡ b
      → Yields (Persisted s) (count_tx b row uid (session d platform now) w)
  counted-Yields s uid now w unique same true one =
      record_entry-Yields (Persisted s) (λ e. e) (reconciled_entry row uid) 1
        (session d platform now) w
        (inr (
          refl,
          record {
            now = now;
            sesame_user_id = uid;
            one = (nat_beq_iff _ _).0 one;
            tables_eq = rw same;
          },
        ))
  counted-Yields s uid now w unique same false other =
      let few =
        matches-one row.id (is_pending_account (session d platform now) row.id) s.accounts
          (λ r on. (nat_beq_iff _ _).0 (ground arith)) unique in
      inl (refl, same ∙ unmatched s uid now (ground (arith, few, other)))

  -- The transaction for a row activates one pending account, or changes nothing.
  pub persist-Commits :
      (uid : Uuid) (w : World Control)
      → UniqueIds w.tables
      → Commits (Persisted w.tables) w.tables (transact (λ e. e) d platform (persist_tx row uid) w)
  unfolding activate_pending
  persist-Commits uid w unique =
      transact-Commits (Persisted w.tables) (λ e. e) d platform (persist_tx row uid) w
        λ now w' same.
          exec-Yields (Persisted w.tables) (λ e. e) (activate_pending row.id uid)
            (λ updated. count_tx (updated == 1) row uid) (session d platform now) w'
            λ id n s w'' ran same'. rw (ran_count now id n s (rw same at ran)) (
              counted-Yields w.tables uid now w'' unique
                (same' ∙ ran_tables now id n s (rw same at ran)) _ refl)
    where
      ran_tables :
          (now : Time) (id : Uuid) (n : ℕ) (s : Control)
          → activate_pending row.id uid (session d platform now) id w.tables ≡ ok (n, s)
          → s ≡ changed w.tables uid now
      ran_tables now id n s ran = ground arith

      ran_count :
          (now : Time) (id : Uuid) (n : ℕ) (s : Control)
          → activate_pending row.id uid (session d platform now) id w.tables ≡ ok (n, s)
          → n ≡ matching w.tables now
      ran_count now id n s ran = ground arith

pub UniqueIds-Activation :
    {d : Db} {row : PendingRow} (s s' : Control)
    → Activation d row s s'
    → UniqueIds s
    → UniqueIds s'
UniqueIds-Activation {d} {row} s s' a unique = rw a.tables_eq (
    Distinct-update (λ (r : AccountRow). r.account.id)
      (is_pending_account (session d platform a.now) row.id) (activated a.sesame_user_id a.now)
      s.accounts (λ r _. refl) unique)
