-- ===== src/Wrappers/Stubs.antt =====
-- How the providers of crates/wrappers answer until their clients exist: with a constant, with a fresh
-- identifier, or with an error. Their only state is the source of identifiers.
use opengroupware.Prelude.{ℕ, suc, ok, err}
use opengroupware.Db.World.{Uuid}
use opengroupware.Types.Provider.{unavailable, Call}

pub record Fresh : Type 0 where
  pub uuids : ℕ → Uuid
  pub drawn : ℕ

module _ {A : Type 0} where
  -- `Ok(a)`
  abbrev pub answer : A → Call Fresh A
  answer a s = (ok a, s)

  -- An answer with a `Uuid::new_v4()` in it.
  abbrev pub answer_fresh : (Uuid → A) → Call Fresh A
  answer_fresh f s = (ok (f (s.uuids s.drawn)), record s { drawn = suc s.drawn })

  abbrev pub not_implemented : Call Fresh A
  not_implemented s =
      (err (unavailable "not implemented: real client lands with MVP slice 1 (docs/13)"), s)

-- `Ok(Uuid::new_v4())`
abbrev pub fresh : Call Fresh Uuid
fresh = answer_fresh λ id. id
