-- ===== src/Prelude/Keys.antt =====
-- UNIQUE columns: no two rows of a table have the same key.
use mathlib.Core.Path.{◌≡◌, refl, ap, sym, ◌∙◌}
use mathlib.Core.Logic.{inl, inr}
use mathlib.Core.Bool.{Bool, true, false}
use mathlib.Core.List.{List, [], ◌∷◌, ◌++◌}
use native.Mathlib.Omega.{arith}
use opengroupware.Prelude.Tests.{Eq, ◌==◌, if◌then◌else◌, Bool-cases}
use opengroupware.Prelude.Lists.{any, update}

module _ {ℓ} {A : Type ℓ} where
  -- A test that passes nowhere, weakened to a test that passes less often.
  pub any-weaken :
      (p q : A → Bool) (xs : List A)
      → ((x : A) → p x ≡ false → q x ≡ false)
      → any p xs ≡ false
      → any q xs ≡ false
  unfolding any
  any-weaken p q [] h none = refl
  any-weaken p q (x ∷ xs) h none = ground (arith, h x, any-weaken p q xs h)

  -- A test that an update does not touch.
  pub any-update :
      (p q : A → Bool) (f : A → A) (xs : List A)
      → ((x : A) → q x ≡ true → p (f x) ≡ p x)
      → any p (update q f xs) ≡ any p xs
  unfolding any update
  any-update p q f [] same = refl
  any-update p q f (x ∷ xs) same = ground (arith, same x, any-update p q f xs same)

module _ {ℓ} {A K : Type ℓ} ⦃e : Eq K⦄ (key : A → K) where
  abbrev pub Distinct : List A → Type 0
  Distinct [] = Unit
  Distinct (x ∷ xs) = (any (λ y. key y == key x) xs ≡ false) × Distinct xs

module _ {ℓ} {A K : Type ℓ} ⦃e : Eq K⦄ (key : A → K) where
  beq_sym : (a b : K) → (a == b) ≡ false → (b == a) ≡ false
  beq_sym a b h = elim (Bool-cases (b == a)) [
    | inl same ↦ absurd (ground (arith, h, e.same-complete a b (sym (e.same-sound b a same))))
    | inr other ↦ other
  ]

  any-concat :
      (y x : A) (xs : List A)
      → any (λ z. key z == key y) xs ≡ false
      → (key x == key y) ≡ false
      → any (λ z. key z == key y) (xs ++ x ∷ []) ≡ false
  unfolding any
  any-concat y x [] h k = ground arith
  any-concat y x (z ∷ zs) h k = ground (arith, any-concat y x zs)

  pub Distinct-concat :
      (xs : List A) (x : A)
      → any (λ y. key y == key x) xs ≡ false
      → Distinct key xs
      → Distinct key (xs ++ x ∷ [])
  unfolding any
  Distinct-concat [] x h d = (refl, tt)
  Distinct-concat (y ∷ ys) x h (fresh, d) = (
    any-concat y x ys fresh (beq_sym (key y) (key x) (ground arith)),
    Distinct-concat ys x (ground arith) d,
  )

  pub Distinct-update :
      (q : A → Bool) (f : A → A) (xs : List A)
      → ((x : A) → q x ≡ true → key (f x) ≡ key x)
      → Distinct key xs
      → Distinct key (update q f xs)
  unfolding update
  Distinct-update q f [] same d = tt
  Distinct-update q f (x ∷ xs) same (fresh, d) =
      let kept : key (if q x then f x else x) ≡ key x = ground (arith, same x) in
      (
        any-update _ q f xs (λ y on. ap (λ k. k == key (if q x then f x else x)) (same y on))
            ∙ (rw kept fresh),
        Distinct-update q f xs same d,
      )
