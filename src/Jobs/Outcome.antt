-- ===== src/Jobs/Outcome.antt =====
-- What a whole cycle of Jobs/Reconcile does.
use opengroupware.Prelude.{
  ℕ, suc, ◌+◌, ◌≤◌, ◌≡◌, refl, ap, ◌&&◌, List, [], ◌∷◌, inl, inr, ℤ, pos, negsuc, pos_part, Result,
  ok, err, nat_eq, string_eq, arith, select, length, length-limit, limit, order_by, map, subst,
}
use opengroupware.Types.Provider.{ProviderError}
use opengroupware.Db.Errors.{SqlError}
use opengroupware.Db.World.{Uuid, Time, World, next, continue}
use opengroupware.Db.Session.{visible}
use opengroupware.Db.Connect.{Db}
use opengroupware.Db.Transaction.{platform, session, transact, exec}
use opengroupware.Db.Commits.{Commits, statement-Commits}
use opengroupware.Admin.Tables.{Control, AccountRow}
use opengroupware.Admin.Routes.{Provisioner}
use opengroupware.Jobs.Reconcile.{
  PendingRow, pending_row, is_pending, select_pending, persist, reconcile_row, reconcile_rows,
  reconcile_once,
}
use opengroupware.Jobs.Effects.{
  UniqueIds, Run, done, activate, Run-append, Persisted, persist-Commits, UniqueIds-Activation,
}

module _ (d : Db) where
  -- The answer is the number of the activations beyond the first `n`, of which there are at most as
  -- many as `bound`; on an error too there are no others.
  abbrev pub IsRun : ℕ → ℕ → Control → Result SqlError ℕ × World Control → Type 0
  IsRun n bound s (ok m, w) = (k : ℕ) × (m ≡ n + k) × (k ≤ bound) × Run d k s w.tables
  IsRun n bound s (err e, w) = (k : ℕ) × (k ≤ bound) × Run d k s w.tables

  -- A turn of the loop, after which identifiers are still unique.
  abbrev IsTurn : PendingRow → Control → Result SqlError ℕ × World Control → Type 0
  IsTurn row s r = Commits (Persisted d row s) s r × UniqueIds r.1.tables

  Commits-UniqueIds :
      (row : PendingRow) (s : Control) (r : Result SqlError ℕ × World Control)
      → UniqueIds s
      → Commits (Persisted d row s) s r
      → UniqueIds r.1.tables
  Commits-UniqueIds row s (ok k, w) unique (inl (_, same)) = rw same unique
  Commits-UniqueIds row s (ok k, w) unique (inr (_, a)) = UniqueIds-Activation s w.tables a unique
  Commits-UniqueIds row s (err e, w) unique (inl same) = rw same unique
  Commits-UniqueIds row s (err e, w) unique (inr (k, inl (_, same))) = rw same unique
  Commits-UniqueIds row s (err e, w) unique (inr (k, inr (_, a))) =
      UniqueIds-Activation s w.tables a unique

  turn :
      (provision : Provisioner) (row : PendingRow) (w : World Control)
      → UniqueIds w.tables
      → IsTurn row w.tables (reconcile_row d provision row w)
  unfolding reconcile_row
  turn provision row w unique = go (provision w.tick row.email row.display_name)
    where
      go : (r : Result ProviderError Uuid) → IsTurn row w.tables (persist d row r (next w))
      go (err e) = (inl (refl, refl), unique)
      go (ok uid) =
          let h = persist-Commits d row uid (next w) unique in
          (h, Commits-UniqueIds row w.tables _ unique h)

  Persisted-Run :
      (row : PendingRow) (s : Control) (k : ℕ) (s' : Control)
      → Persisted d row s k s'
      → (k ≤ 1) × Run d k s s'
  Persisted-Run row s k s' (inl (none, same)) = (omega (arith, none), rw (none, same) (done s))
  Persisted-Run row s k s' (inr (one, a)) =
      (omega (arith, one), rw one (activate 0 s s' s' row a (done s')))

  rows-IsRun :
      (provision : Provisioner) (rows : List PendingRow) (n : ℕ) (w : World Control)
      → UniqueIds w.tables
      → IsRun n (length rows) w.tables (reconcile_rows d provision rows n w)
  unfolding reconcile_rows
  rows-IsRun provision [] n w unique = (0, omega arith, omega arith, done w.tables)
  rows-IsRun provision (row ∷ rows) n w unique =
      go (reconcile_row d provision row w) (turn provision row w unique)
        λ k w' unique'. rows-IsRun provision rows (n + k) w' unique'
    where
      after :
          (k : ℕ) (w' : World Control)
          → k ≤ 1
          → Run d k w.tables w'.tables
          → (r : Result SqlError ℕ × World Control) → IsRun (n + k) (length rows) w'.tables r
          → IsRun n (suc (length rows)) w.tables r
      after k w' few run (ok m, w'') (j, sum, bound, rest) = (
        k + j,
        omega (arith, sum),
        omega (arith, few, bound),
        Run-append (k + j) k j _ w'.tables _ refl run rest,
      )
      after k w' few run (err e, w'') (j, bound, rest) =
          (k + j, omega (arith, few, bound), Run-append (k + j) k j _ w'.tables _ refl run rest)

      go :
          (r : Result SqlError ℕ × World Control)
          → IsTurn row w.tables r
          → ((k : ℕ) (w' : World Control)
              → UniqueIds w'.tables
              → IsRun (n + k) (length rows) w'.tables (reconcile_rows d provision rows (n + k) w'))
          → IsRun n
              (suc (length rows))
              w.tables
              (continue r λ k w'. reconcile_rows d provision rows (n + k) w')
      go (ok k, w') (h, unique') rest =
          let (few, run) = Persisted-Run row w.tables k w'.tables h in
          after k w' few run _ (rest k w' unique')
      go (err e, w') (inl same, unique') rest = (0, omega arith, rw same (done w.tables))
      go (err e, w') (inr (k, h), unique') rest =
          let (few, run) = Persisted-Run row w.tables k w'.tables h in (k, omega (arith, few), run)

  -- What the first transaction of a cycle reads.
  Read : ℤ → Control → List PendingRow → Control → Type 0
  Read batch s rows s' = (length rows ≤ pos_part batch) × (s' ≡ s)

  length-map : {A B : Type 0} (f : A → B) (xs : List A) → length (map f xs) ≡ length xs
  length-map f [] = refl
  length-map f (x ∷ xs) = ap suc (length-map f xs)

  Read-Commits :
      (batch : ℤ) (w : World Control)
      → Commits
          (Read batch w.tables)
          w.tables
          (transact (λ e. e) d platform (exec (λ e. e) (select_pending batch)) w)
  unfolding select_pending Read
  Read-Commits batch w =
      statement-Commits (Read batch w.tables) (λ e. e) d platform (select_pending batch) w
        (selected batch)
    where
      selected :
          (b : ℤ) (now : Time) (id : Uuid) (rows : List PendingRow) (s : Control)
          → select_pending b (session d platform now) id w.tables ≡ ok (rows, s)
          → Read b w.tables rows s
      selected (negsuc n) now id rows s ran = absurd (ground arith)
      selected (pos n) now id rows s ran =
          let l =
            order_by (λ (r : AccountRow). r.account.created_at)
              (select
                (λ (r : AccountRow).
                  visible (session d platform now) r.account.tenant_id && is_pending r)
                w.tables.accounts) in
          (ground (arith, length-map pending_row (limit n l), length-limit n l), ground arith)

  -- A cycle is a run of activations: if it succeeds, its answer is their number; there are at most as
  -- many as the batch; and if it fails, what it has done is such a run too. Account identifiers are
  -- unique.
  pub reconcile_once-IsRun :
      (provision : Provisioner) (batch : ℤ) (w : World Control)
      → UniqueIds w.tables
      → IsRun 0 (pos_part batch) w.tables (reconcile_once d provision batch w)
  unfolding reconcile_once Read
  reconcile_once-IsRun provision batch w unique = go _ (Read-Commits batch w)
    where
      wider :
          (bound : ℕ) (s : Control) (r : Result SqlError ℕ × World Control)
          → bound ≤ pos_part batch
          → IsRun 0 bound s r
          → IsRun 0 (pos_part batch) s r
      wider bound s (ok m, w') le (k, sum, few, run) = (k, sum, omega (arith, le, few), run)
      wider bound s (err e, w') le (k, few, run) = (k, omega (arith, le, few), run)

      go :
          (r : Result SqlError (List PendingRow) × World Control)
          → Commits (Read batch w.tables) w.tables r
          → IsRun 0
              (pos_part batch)
              w.tables
              (continue r λ pending w'. reconcile_rows d provision pending 0 w')
      go (ok rows, w') (few, same) = wider (length rows) w.tables _ few (
          subst (λ t. IsRun 0 (length rows) t (reconcile_rows d provision rows 0 w')) same
            (rows-IsRun provision rows 0 w' (rw same unique)))
      go (err e, w') (inl same) = (0, omega arith, rw same (done w.tables))
      go (err e, w') (inr (rows, (_, same))) = (0, omega arith, rw same (done w.tables))
