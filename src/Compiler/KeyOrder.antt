-- ===== src/Compiler/KeyOrder.antt =====
-- The order of the keys of a `BTreeMap<String, _>` is a strict total order.
use opengroupware.Prelude.{ℕ, ◌≡◌, refl, true, false, List, [], ◌∷◌, nat_eq, string_eq, arith}
use opengroupware.Compiler.Policies.{before}

pub before_trans : (a b c : List ℕ) → before a b ≡ true → before b c ≡ true → before a c ≡ true
unfolding before
before_trans [] [] c h k = cc
before_trans [] (y ∷ b) [] h k = cc
before_trans [] (y ∷ b) (z ∷ c) h k = refl
before_trans (x ∷ a) [] c h k = cc
before_trans (x ∷ a) (y ∷ b) [] h k = cc
before_trans (x ∷ a) (y ∷ b) (z ∷ c) h k = ground (arith, before_trans a b c, h, k)

pub before-irreflexive : (a : List ℕ) → before a a ≡ false
unfolding before
before-irreflexive [] = refl
before-irreflexive (x ∷ a) = ground (arith, before-irreflexive a)

pub before-total : (a b : List ℕ) → before a b ≡ false → before b a ≡ false → a ≡ b
unfolding before
before-total [] [] h k = refl
before-total [] (y ∷ b) h k = cc
before-total (x ∷ a) [] h k = cc
before-total (x ∷ a) (y ∷ b) h k =
    let same : x ≡ y = ground (arith, h, k) in
    let rest = before-total a b (ground (arith, h, same)) (ground (arith, k, same)) in
    rw (same, rest) refl
