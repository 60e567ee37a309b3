-- ===== src/Db/Live.antt =====
-- What transactions do over a connection that answers: they end as their bodies do.
use opengroupware.Prelude.{ℕ, [], ◌∷◌, ◌++◌, ◌≡◌, refl, true, nat_eq, Result, ok, err, arith}
use opengroupware.Db.Errors.{SqlError}
use opengroupware.Db.World.{answered, World, next, with_tables}
use opengroupware.Db.Session.{Session, visible_entry}
use opengroupware.Db.Connect.{Db}
use opengroupware.Db.Audit.{HasAudit, AuditEntry, audit_row, insert_audit, record_entry}
use opengroupware.Db.Transaction.{
  Stmt, Tx, pure, ◌>>◌, exec, ◌>>=◌, Scope, session, finish, transact,
}

-- Every round trip is answered.
abbrev pub IsUp : {S : Type 0} → World S → Type 0
IsUp w = (n : ℕ) → w.replies n ≡ answered

-- The same connection, clock and source of identifiers.
pub record SameWorld {S : Type 0} (w w' : World S) : Type 0 where
  pub replies_eq : w'.replies ≡ w.replies
  pub clock_eq : w'.clock ≡ w.clock
  pub uuids_eq : w'.uuids ≡ w.uuids

pub SameWorld-refl : {S : Type 0} (w : World S) → SameWorld w w
SameWorld-refl w = record { replies_eq = refl; clock_eq = refl; uuids_eq = refl }

pub SameWorld-IsUp : {S : Type 0} {w w' : World S} → SameWorld w w' → IsUp w → IsUp w'
SameWorld-IsUp same up n = rw same.replies_eq (up n)

module _ {S A : Type 0} (Q : A → S → Type 0) where
  -- It succeeds, its value and its tables are as `Q` says, and the world is otherwise `w`.
  abbrev pub Succeeds : {E : Type 0} → World S → Result E A × World S → Type 0
  Succeeds w (ok a, w') = Q a w'.tables × SameWorld w w'
  Succeeds w (err e, w') = ⊥

-- It fails with this error and changes nothing.
abbrev pub Fails : {S E A : Type 0} → E → World S → Result E A × World S → Type 0
Fails e w (ok a, w') = ⊥
Fails e w (err x, w') = (x ≡ e) × (w'.tables ≡ w.tables) × SameWorld w w'

module _ {S E A : Type 0} (Q : A → S → Type 0) where
  finish-Succeeds :
      (from : SqlError → E) (s : S) (v : World S) (r : Result E A × World S)
      → IsUp v
      → Succeeds Q v r
      → Succeeds Q v (finish from s r)
  unfolding finish
  finish-Succeeds from s v (ok a, w) up (q, same) =
      let here : w.replies w.tick ≡ answered = rw same.replies_eq (up w.tick) in
      rw here (
        q,
        record { replies_eq = same.replies_eq; clock_eq = same.clock_eq; uuids_eq = same.uuids_eq },
      )
  finish-Succeeds from s v (err e, w) up h = absurd h

  pub transact-Succeeds :
      (from : SqlError → E) (d : Db) (scope : Scope) (body : Tx S E A) (w : World S)
      → IsUp w
      → Succeeds Q w (body (session d scope (w.clock w.tick)) (next (next w)))
      → Succeeds Q w (transact from d scope body w)
  unfolding transact
  transact-Succeeds from d scope body w up h =
      rw (transact, up w.tick, up (next w).tick) (finish-Succeeds from w.tables w _ up h)

  module _ {B : Type 0} where
    -- One answered statement, and the rest from where it leaves the tables.
    pub exec-Succeeds :
        (from : SqlError → E) (q : Stmt S B) (f : B → Tx S E A) (se : Session) (v w : World S)
        (b : B) (s : S)
        → IsUp v
        → SameWorld v w
        → q se (w.uuids w.tick) w.tables ≡ ok (b, s)
        → Succeeds Q v (f b se (with_tables (next w) s))
        → Succeeds Q v ((exec from q >>= f) se w)
    unfolding exec
    exec-Succeeds from q f se v w b s up same ran h =
        let here : w.replies w.tick ≡ answered = rw same.replies_eq (up w.tick) in rw (here, ran) h

  -- A transaction of one answered statement.
  pub statement-Succeeds :
      (from : SqlError → E) (d : Db) (scope : Scope) (q : Stmt S A) (w : World S) (a : A) (s : S)
      → IsUp w
      → q (session d scope (w.clock w.tick)) (w.uuids (next (next w)).tick) w.tables ≡ ok (a, s)
      → Q a s
      → Succeeds Q w (transact from d scope (exec from q) w)
  unfolding exec
  statement-Succeeds from d scope q w a s up ran h =
      transact-Succeeds from d scope (exec from q) w up (
        rw (up (next (next w)).tick, ran)
          (h, record { replies_eq = refl; clock_eq = refl; uuids_eq = refl }))

module _ {S E A B : Type 0} where
  -- One answered statement, as an equation.
  pub exec-continues :
      (from : SqlError → E) (q : Stmt S B) (f : B → Tx S E A) (se : Session) (w : World S) (b : B)
      (s : S)
      → IsUp w
      → q se (w.uuids w.tick) w.tables ≡ ok (b, s)
      → (exec from q >>= f) se w ≡ f b se (with_tables (next w) s)
  unfolding exec
  exec-continues from q f se w b s up ran = rw (up w.tick, ran) refl

module _ {S E A : Type 0} where
  pub transact-Fails :
      (from : SqlError → E) (d : Db) (scope : Scope) (body : Tx S E A) (w : World S) (e : E)
      → IsUp w
      → Fails e (next (next w)) (body (session d scope (w.clock w.tick)) (next (next w)))
      → Fails e w (transact from d scope body w)
  unfolding transact finish
  transact-Fails from d scope body w e up h = rw (transact, up w.tick, up (next w).tick) (go _ h)
    where
      go :
          (r : Result E A × World S)
          → Fails e (next (next w)) r
          → Fails e w (finish from w.tables r)
      go (ok a, w') h = absurd h
      go (err x, w') (same, _, world) = (
        same,
        refl,
        record {
          replies_eq = world.replies_eq;
          clock_eq = world.clock_eq;
          uuids_eq = world.uuids_eq;
        },
      )

module _ {S E A : Type 0} ⦃a : HasAudit S⦄ (Q : A → S → Type 0) where
  pub record_entry-Succeeds :
      (from : SqlError → E) (e : AuditEntry) (b : A) (se : Session) (v w : World S)
      → IsUp v
      → SameWorld v w
      → visible_entry se e.tenant_id ≡ true
      → a.references w.tables e.tenant_id ≡ ok tt
      → Q b (a.set_audit_log w.tables (a.audit_log w.tables ++ audit_row se e ∷ []))
      → Succeeds Q v ((record_entry from e >> pure b) se w)
  unfolding record_entry insert_audit
  record_entry-Succeeds from e b se v w up same seen known h =
      exec-Succeeds Q from (insert_audit e) (λ _. pure b) se v w tt _ up same
        (ground (arith, seen, known))
        (
          h,
          record {
            replies_eq = same.replies_eq;
            clock_eq = same.clock_eq;
            uuids_eq = same.uuids_eq;
          },
        )
