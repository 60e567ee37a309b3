-- ===== src/Db/World.antt =====
-- What a service meets outside itself: a database that answers or does not, a clock, and random
-- identifiers. All of these are arbitrary functions of the number of the round trip.
use opengroupware.Prelude.{ℕ, suc, Result, ok, err}

abbrev pub Uuid : Type 0
Uuid = ℕ

abbrev pub Time : Type 0
Time = ℕ

-- How a round trip ends: with its reply; with an error and nothing done; or with an error although
-- the server has done its part.
pub data Reply : Type 0 where
  answered refused unanswered : Reply

pub record World {ℓ} (S : Type ℓ) : Type ℓ where
  pub replies : ℕ → Reply
  pub clock : ℕ → Time
  pub uuids : ℕ → Uuid
  pub tick : ℕ
  pub tables : S

abbrev pub Io {ℓ} : Type ℓ → Type ℓ → Type ℓ → Type ℓ
Io S E A = World S → Result E A × World S

module _ {ℓ} {S : Type ℓ} where
  -- One round trip has been made.
  abbrev pub next : World S → World S
  next w = record w { tick = suc w.tick }

  abbrev pub with_tables : World S → S → World S
  with_tables w s = record w { tables = s }

module _ {ℓ} {S E A B : Type ℓ} where
  abbrev pub continue : Result E A × World S → (A → Io S E B) → Result E B × World S
  continue (ok a, w) f = f a w
  continue (err e, w) f = (err e, w)
