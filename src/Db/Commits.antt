-- ===== src/Db/Commits.antt =====
-- Transactions are all or nothing, whatever the connection does.
use opengroupware.Prelude.{[], ◌∷◌, ◌++◌, ◌≡◌, refl, ◌⊎◌, inl, inr, Result, ok, err, arith}
use opengroupware.Db.Errors.{SqlError}
use opengroupware.Db.World.{
  Uuid, Time, Reply, answered, refused, unanswered, World, next, with_tables,
}
use opengroupware.Db.Session.{Session}
use opengroupware.Db.Connect.{Db}
use opengroupware.Db.Audit.{HasAudit, AuditEntry, audit_row, record_entry}
use opengroupware.Db.Transaction.{
  Stmt, Tx, land, reply_to, pure, ◌>>◌, exec, ◌>>=◌, Scope, session, settle, finish, transact,
}

module _ {S A : Type 0} (Q : A → S → Type 0) where
  -- If the body succeeds, its value and its tables are as `Q` says.
  abbrev pub Yields : {E : Type 0} → Result E A × World S → Type 0
  Yields (ok a, w) = Q a w.tables
  Yields (err e, w) = Unit

  -- A success has the effect `Q`; a failure has none, or has it with its report lost.
  abbrev pub Commits : {E : Type 0} → S → Result E A × World S → Type 0
  Commits s (ok a, w) = Q a w.tables
  Commits s (err e, w) = (w.tables ≡ s) ⊎ ((a : A) × Q a w.tables)

module _ {S E A : Type 0} (Q : A → S → Type 0) where
  settle-Commits :
      (from : SqlError → E) (s : S) (a : A) (w : World S) (r : Reply)
      → Q a w.tables
      → Commits Q s (settle from s a w r)
  settle-Commits from s a w answered h = h
  settle-Commits from s a w refused h = inl refl
  settle-Commits from s a w unanswered h = inr (a, h)

  finish-Commits :
      (from : SqlError → E) (s : S) (r : Result E A × World S)
      → Yields Q r
      → Commits Q s (finish from s r)
  unfolding finish
  finish-Commits from s (ok a, w) h = settle-Commits from s a w (w.replies w.tick) h
  finish-Commits from s (err e, w) h = inl refl

  -- A transaction commits what its body yields from the tables that it found.
  pub transact-Commits :
      (from : SqlError → E) (d : Db) (scope : Scope) (body : Tx S E A) (w : World S)
      → ((now : Time) (w' : World S)
          → w'.tables ≡ w.tables
          → Yields Q (body (session d scope now) w'))
      → Commits Q w.tables (transact from d scope body w)
  unfolding transact
  transact-Commits from d scope body w h = ground (
    arith,
    finish-Commits from w.tables (body (session d scope (w.clock w.tick)) (next (next w)))
        (h (w.clock w.tick) (next (next w)) refl),
  )

  module _ {B : Type 0} where
    -- A step of a body: one statement, and the rest from where it leaves the tables.
    pub exec-Yields :
        (from : SqlError → E) (q : Stmt S B) (f : B → Tx S E A) (se : Session) (w : World S)
        → ((id : Uuid) (b : B) (s : S) (w' : World S)
            → q se id w.tables ≡ ok (b, s)
            → w'.tables ≡ s
            → Yields Q (f b se w'))
        → Yields Q ((exec from q >>= f) se w)
    unfolding exec
    exec-Yields from q f se w h = go (q se (w.uuids w.tick) w.tables) refl
      where
        go :
            (r : Result SqlError (B × S))
            → q se (w.uuids w.tick) w.tables ≡ r
            → Yields Q ((exec from q >>= f) se w)
        go (err e) p = ground arith
        go (ok (b, s)) p = ground (arith, h (w.uuids w.tick) b s (with_tables (next w) s) p refl)

module _ {S E A : Type 0} ⦃a : HasAudit S⦄ (Q : A → S → Type 0) where
  -- A body that ends with its audit row and its value.
  pub record_entry-Yields :
      (from : SqlError → E) (e : AuditEntry) (b : A) (se : Session) (w : World S)
      → Q b (a.set_audit_log w.tables (a.audit_log w.tables ++ audit_row se e ∷ []))
      → Yields Q ((record_entry from e >> pure b) se w)
  unfolding record_entry
  record_entry-Yields from e b se w h = ground arith

  -- A body of one statement, the audit entry for its result, and that result.
  pub audited-Yields :
      (from : SqlError → E) (q : Stmt S A) (e : A → AuditEntry) (se : Session) (w : World S)
      → ((id : Uuid) (b : A) (s : S)
          → q se id w.tables ≡ ok (b, s)
          → Q b (a.set_audit_log s (a.audit_log s ++ audit_row se (e b) ∷ [])))
      → Yields Q ((do b ← exec from q; record_entry from (e b); pure b) se w)
  audited-Yields from q e se w h =
      exec-Yields Q from q (λ b. record_entry from (e b) >> pure b) se w
        λ id b s w' ran same. record_entry-Yields from (e b) b se w' (rw same (h id b s ran))

  -- The whole transaction around such a body.
  pub audited-Commits :
      (from : SqlError → E) (d : Db) (scope : Scope) (q : Stmt S A) (e : A → AuditEntry)
      (w : World S)
      → ((now : Time) (id : Uuid) (b : A) (s : S)
          → q (session d scope now) id w.tables ≡ ok (b, s)
          → Q b (a.set_audit_log s (a.audit_log s ++ audit_row (session d scope now) (e b) ∷ [])))
      → Commits Q w.tables
          (transact from d scope (do b ← exec from q; record_entry from (e b); pure b) w)
  audited-Commits from d scope q e w h =
      transact-Commits Q from d scope (do b ← exec from q; record_entry from (e b); pure b) w
        λ now w' same.
          audited-Yields from q e (session d scope now) w'
            λ id b s ran. h now id b s (rw same at ran)

module _ {S E A : Type 0} (Q : A → S → Type 0) where
  land-Yields :
      (from : SqlError → E) (w : World S) (r : Result SqlError (A × S))
      → ((a : A) (s : S) → r ≡ ok (a, s) → Q a s)
      → Yields Q (land from w r)
  land-Yields from w (ok (a, s)) h = h a s refl
  land-Yields from w (err e) h = tt

  -- A body of one statement.
  reply_to-Yields :
      (from : SqlError → E) (q : Stmt S A) (se : Session) (w : World S) (r : Reply)
      → ((id : Uuid) (a : A) (s : S) → q se id w.tables ≡ ok (a, s) → Q a s)
      → Yields Q (reply_to from q se w r)
  reply_to-Yields from q se w answered h = land-Yields from w _ (h (w.uuids w.tick))
  reply_to-Yields from q se w refused h = tt
  reply_to-Yields from q se w unanswered h = tt

  -- What a committed effect keeps, the whole operation keeps.
  pub Commits-keeps :
      (P : S → Type 0) (s : S) (r : Result E A × World S)
      → ((a : A) (s' : S) → Q a s' → P s')
      → P s
      → Commits Q s r
      → P r.1.tables
  Commits-keeps P s (ok a, w) keep h c = keep a w.tables c
  Commits-keeps P s (err e, w) keep h (inl same) = rw same h
  Commits-keeps P s (err e, w) keep h (inr (a, c)) = keep a w.tables c

  -- A transaction of one statement.
  pub statement-Commits :
      (from : SqlError → E) (d : Db) (scope : Scope) (q : Stmt S A) (w : World S)
      → ((now : Time) (id : Uuid) (a : A) (s : S)
          → q (session d scope now) id w.tables ≡ ok (a, s)
          → Q a s)
      → Commits Q w.tables (transact from d scope (exec from q) w)
  unfolding exec
  statement-Commits from d scope q w h =
      transact-Commits Q from d scope (exec from q) w λ now w' same.
        reply_to-Yields from q (session d scope now) w' (w'.replies w'.tick)
          λ id a s ran. h now id a s (rw same at ran)
