-- ===== src/Prelude/Changes.antt =====
-- An update of a table, row by row.
use opengroupware.Prelude.Tests.{Bool-cases}
use opengroupware.Prelude.Lists.{update}
use mathlib.Core.Path.{◌≡◌, refl}
use mathlib.Core.Logic.{◌⊎◌, inl, inr, ◌↔◌}
use mathlib.Core.Bool.{Bool, true}
use mathlib.Core.List.{List, [], ◌∷◌}
use native.Mathlib.Omega.{arith}

module _ {A : Type 0} (Hit : A → Type 0) (new : A → A) where
  -- Exactly the rows that are hit have become `new`; the others are as they were, each in its place.
  abbrev pub ChangedAt : List A → List A → Type 0
  ChangedAt [] [] = Unit
  ChangedAt [] (y ∷ ys) = ⊥
  ChangedAt (x ∷ xs) [] = ⊥
  ChangedAt (x ∷ xs) (y ∷ ys) = ((Hit x × (y ≡ new x)) ⊎ ((Hit x → ⊥) × (y ≡ x))) × ChangedAt xs ys

  pub update-ChangedAt :
      (p : A → Bool) (f : A → A) (xs : List A)
      → ((x : A) → (p x ≡ true) ↔ Hit x)
      → ((x : A) → p x ≡ true → f x ≡ new x)
      → ChangedAt xs (update p f xs)
  unfolding update
  update-ChangedAt p f [] hits same = tt
  update-ChangedAt p f (x ∷ xs) hits same = elim (Bool-cases (p x)) [
    | inl on ↦ (rw on (inl ((hits x).0 on, same x on)), update-ChangedAt p f xs hits same)
    | inr off ↦ (
      rw off (inr (λ hit. ground (arith, off, (hits x).1 hit), refl)),
      update-ChangedAt p f xs hits same,
    )
  ]
