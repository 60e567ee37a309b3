-- ===== src/Db/Transaction.antt =====
-- `Db::tenant_tx` and `Db::platform_tx` of crates/og-db/src/db.rs, the statements inside them and
-- their commit. A transaction that is not committed leaves no trace in the tables.
use opengroupware.Prelude.{true, false, none, some, Result, ok, err}
use opengroupware.Db.Errors.{SqlError, lost}
use opengroupware.Db.World.{
  Uuid, Time, Reply, answered, refused, unanswered, World, Io, next, with_tables, continue,
}
use opengroupware.Db.Session.{Session}
use opengroupware.Db.Connect.{Db}

-- A statement: what the server does with it, given a fresh random identifier.
abbrev pub Stmt : Type 0 → Type 0 → Type 0
Stmt S A = Session → Uuid → S → Result SqlError (A × S)

-- What runs inside a transaction.
abbrev pub Tx : Type 0 → Type 0 → Type 0 → Type 0
Tx S E A = Session → Io S E A

module _ {S E A : Type 0} where
  abbrev pub pure : A → Tx S E A
  pure a se w = (ok a, w)

  abbrev pub from_result : Result E A → Tx S E A
  from_result r se w = (r, w)

  abbrev pub land : (SqlError → E) → World S → Result SqlError (A × S) → Result E A × World S
  land from w (ok (a, s)) = (ok a, with_tables (next w) s)
  land from w (err e) = (err (from e), next w)

  abbrev pub reply_to : (SqlError → E) → Stmt S A → Session → World S → Reply → Result E A × World S
  reply_to from q se w answered = land from w (q se (w.uuids w.tick) w.tables)
  reply_to from q se w _ = (err (from lost), next w)

  -- One statement is sent and awaited; `from` is the conversion that `?` makes.
  unfoldable pub exec : (SqlError → E) → Stmt S A → Tx S E A
  exec from q se w = reply_to from q se w (w.replies w.tick)

module _ {S E A B : Type 0} where
  infixl 5 ◌>>=◌ ◌>>◌
  abbrev pub ◌>>=◌ : Tx S E A → (A → Tx S E B) → Tx S E B
  ◌>>=◌ m f se w = continue (m se w) (λ a. f a se)

  abbrev pub ◌>>◌ : Tx S E A → Tx S E B → Tx S E B
  m >> k = m >>= λ _. k

-- The setting that the opening call makes.
pub data Scope : Type 0 where
  tenant : Uuid → Scope
  platform : Scope

-- `SELECT set_config(…, true)`
abbrev pub session : Db → Scope → Time → Session
session d (tenant t) now = record {
  rls = d.rls;
  current_tenant_id = some t;
  is_platform_admin = false;
  started = now;
}
session d platform now = record {
  rls = d.rls;
  current_tenant_id = none;
  is_platform_admin = true;
  started = now;
}

module _ {S E A : Type 0} where
  -- How `tx.commit().await?` ends, by the reply to it; `s` are the tables before the transaction.
  abbrev pub settle : (SqlError → E) → S → A → World S → Reply → Result E A × World S
  settle from s a w answered = (ok a, next w)
  settle from s a w refused = (err (from lost), with_tables (next w) s)
  settle from s a w unanswered = (err (from lost), next w)

  -- The commit, or the rollback of a transaction that is dropped.
  unfoldable pub finish : (SqlError → E) → S → Result E A × World S → Result E A × World S
  finish from s (err e, w) = (err e, with_tables w s)
  finish from s (ok a, w) = settle from s a w (w.replies w.tick)

  -- `pool.begin()`, the setting, the body and the commit.
  unfoldable pub transact : (SqlError → E) → Db → Scope → Tx S E A → Io S E A
  unfolding finish
  transact from d scope body w = elim (w.replies w.tick) [
    | answered ↦ elim (w.replies (next w).tick) [
      | answered ↦ finish from w.tables (body (session d scope (w.clock w.tick)) (next (next w)))
      | _ ↦ (err (from lost), next (next w))
    ]
    | _ ↦ (err (from lost), next w)
  ]
