-- ===== src/Prelude/Order.antt =====
-- `ORDER BY`: a stable insertion sort; its result is sorted and is a permutation of the rows.
use Prim.Native.Nat.{ℕ}
use mathlib.Core.Path.{◌≡◌}
use mathlib.Core.Bool.{Bool, true, false}
use mathlib.Core.Logic.{inl, inr}
use mathlib.Core.List.{List, [], ◌∷◌, ◌++◌, append-nil, Perm, perm_middle}
use mathlib.Core.List.Perm
use native.Mathlib.Omega.{arith}
use opengroupware.Prelude.Tests.{ltb, if◌then◌else◌, Bool-cases}
use opengroupware.Prelude.Lists.{All}

module _ {ℓ} {A : Type ℓ} where
  -- `before x y`: x stands strictly before y. Equals stay in table order.
  unfoldable pub insert_by : (A → A → Bool) → A → List A → List A
  insert_by before x [] = x ∷ []
  insert_by before x (y ∷ ys) =
      let later = y ∷ insert_by before x ys in if before x y then x ∷ y ∷ ys else later

  unfoldable pub order_from : (A → A → Bool) → List A → List A → List A
  unfolding insert_by
  order_from before sorted [] = sorted
  order_from before sorted (x ∷ xs) = order_from before (insert_by before x sorted) xs

  -- `ORDER BY key` and `ORDER BY key DESC`.
  unfoldable pub order_by : (A → ℕ) → List A → List A
  unfolding order_from
  order_by key xs = order_from (λ x y. ltb (key x) (key y)) [] xs

  unfoldable pub order_by_desc : (A → ℕ) → List A → List A
  unfolding order_from
  order_by_desc key xs = order_from (λ x y. ltb (key y) (key x)) [] xs

  -- No row stands behind one that it should precede.
  abbrev pub Sorted : (A → A → Bool) → List A → Type 0
  Sorted before [] = Unit
  Sorted before (x ∷ xs) = All (λ y. before y x ≡ false) xs × Sorted before xs

  All-insert_by :
      (P : A → Type 0) (before : A → A → Bool) (x : A) (ys : List A)
      → P x
      → All P ys
      → All P (insert_by before x ys)
  unfolding insert_by
  All-insert_by P before x [] px h = (px, tt)
  All-insert_by P before x (y ∷ ys) px (py, h) = ground (arith, All-insert_by P before x ys px h)

  insert_by-perm :
      (before : A → A → Bool) (x : A) (ys : List A) → Perm (insert_by before x ys) (x ∷ ys)
  unfolding insert_by
  insert_by-perm before x [] = Perm.refl (x ∷ [])
  insert_by-perm before x (y ∷ ys) = elim (Bool-cases (before x y)) [
    | inl first ↦ rw first (Perm.refl (x ∷ y ∷ ys))
    | inr later ↦
        rw later (Perm.trans (Perm.cons y (insert_by-perm before x ys)) (Perm.swap x y ys))
  ]

  order_from-perm :
      (before : A → A → Bool) (sorted xs : List A)
      → Perm (order_from before sorted xs) (sorted ++ xs)
  unfolding order_from
  order_from-perm before sorted [] = rw append-nil (Perm.refl sorted)
  order_from-perm before sorted (x ∷ xs) =
      Perm.trans (order_from-perm before (insert_by before x sorted) xs) (
        Perm.trans (Perm.append_right xs (insert_by-perm before x sorted))
          (Perm.symm (perm_middle sorted xs)))

  module _ (before : A → A → Bool) (strict : (x y : A) → before x y ≡ true → before y x ≡ false)
      (past : (x y z : A) → before x y ≡ true → before z y ≡ false → before z x ≡ false) where
    All-past :
        (x y : A) (ys : List A)
        → before x y ≡ true
        → All (λ z. before z y ≡ false) ys
        → All (λ z. before z x ≡ false) ys
    All-past x y [] h k = tt
    All-past x y (z ∷ ys) h (q, k) = (past x y z h q, All-past x y ys h k)

    insert_by-Sorted :
        (x : A) (ys : List A) → Sorted before ys → Sorted before (insert_by before x ys)
    unfolding insert_by
    insert_by-Sorted x [] h = (tt, tt)
    insert_by-Sorted x (y ∷ ys) (least, h) = elim (Bool-cases (before x y)) [
      | inl first ↦ rw first ((strict x y first, All-past x y ys first least), (least, h))
      | inr later ↦
          rw later (
            All-insert_by (λ z. before z y ≡ false) before x ys later least,
            insert_by-Sorted x ys h,
          )
    ]

    order_from-Sorted :
        (sorted xs : List A) → Sorted before sorted → Sorted before (order_from before sorted xs)
    unfolding order_from
    order_from-Sorted sorted [] h = h
    order_from-Sorted sorted (x ∷ xs) h =
        order_from-Sorted (insert_by before x sorted) xs (insert_by-Sorted x sorted h)

  order_from-All :
      (P : A → Type 0) (before : A → A → Bool) (sorted xs : List A)
      → All P sorted
      → All P xs
      → All P (order_from before sorted xs)
  unfolding order_from
  order_from-All P before sorted [] h k = h
  order_from-All P before sorted (x ∷ xs) h (px, k) =
      order_from-All P before (insert_by before x sorted) xs (All-insert_by P before x sorted px h)
        k

  module _ (key : A → ℕ) where
    pub order_by-All : (P : A → Type 0) (xs : List A) → All P xs → All P (order_by key xs)
    unfolding order_by
    order_by-All P xs h = order_from-All P (λ x y. ltb (key x) (key y)) [] xs tt h

    pub order_by_desc-All : (P : A → Type 0) (xs : List A) → All P xs → All P (order_by_desc key xs)
    unfolding order_by_desc
    order_by_desc-All P xs h = order_from-All P (λ x y. ltb (key y) (key x)) [] xs tt h

    pub order_by-perm : (xs : List A) → Perm (order_by key xs) xs
    unfolding order_by
    order_by-perm xs = order_from-perm (λ x y. ltb (key x) (key y)) [] xs

    pub order_by_desc-perm : (xs : List A) → Perm (order_by_desc key xs) xs
    unfolding order_by_desc
    order_by_desc-perm xs = order_from-perm (λ x y. ltb (key y) (key x)) [] xs

    pub order_by-Sorted : (xs : List A) → Sorted (λ x y. ltb (key x) (key y)) (order_by key xs)
    unfolding order_by
    order_by-Sorted xs =
        order_from-Sorted (λ x y. ltb (key x) (key y)) (λ x y h. ground arith)
          (λ x y z h k. ground arith) [] xs tt

    pub order_by_desc-Sorted :
        (xs : List A) → Sorted (λ x y. ltb (key y) (key x)) (order_by_desc key xs)
    unfolding order_by_desc
    order_by_desc-Sorted xs =
        order_from-Sorted (λ x y. ltb (key y) (key x)) (λ x y h. ground arith)
          (λ x y z h k. ground arith) [] xs tt
