-- ===== src/Prelude/Splitting.antt =====
-- `str::split` of parts that are put together with a separator.
use Prim.Native.Nat.{ℕ}
use mathlib.Core.Path.{◌≡◌, ◌∙◌, refl}
use mathlib.Core.Bool.{Bool, true, false}
use mathlib.Core.List.{List, [], ◌∷◌, ◌++◌, append-nil, append_assoc}
use native.Mathlib.Omega.{arith}
use opengroupware.Prelude.Lists.{any}
use opengroupware.Prelude.Tests.{◌==◌, nat_eq}
use opengroupware.Prelude.Texts.{split_from, split}

-- A character occurs in a text.
abbrev pub has : ℕ → List ℕ → Bool
has d cs = any (λ c. c == d) cs

pub split_from-free :
    (d : ℕ) (cur cs : List ℕ) → has d cs ≡ false → split_from d cur cs ≡ (cur ++ cs) ∷ []
unfolding split_from any
split_from-free d cur [] h = rw append-nil refl
split_from-free d cur (c ∷ cs) h =
    let other : (c == d) ≡ false = ground arith in
    rw other (split_from-free d (cur ++ c ∷ []) cs (ground arith) ∙ rw append_assoc refl)

pub split_from-at :
    (d : ℕ) (cur cs rest : List ℕ)
    → has d cs ≡ false
    → split_from d cur (cs ++ d ∷ rest) ≡ (cur ++ cs) ∷ split_from d [] rest
unfolding split_from any
split_from-at d cur [] rest h =
    let same : (d == d) ≡ true = ground arith in rw (same, append-nil) refl
split_from-at d cur (c ∷ cs) rest h =
    let other : (c == d) ≡ false = ground arith in
    rw other (split_from-at d (cur ++ c ∷ []) cs rest (ground arith) ∙ rw append_assoc refl)

-- Three parts, as of a token.
pub split-three :
    (d : ℕ) (h p s : List ℕ)
    → has d h ≡ false
    → has d p ≡ false
    → has d s ≡ false
    → split d (h ++ d ∷ (p ++ d ∷ s)) ≡ h ∷ p ∷ s ∷ []
unfolding split
split-three d h p s free_h free_p free_s =
    rw
      (
        split_from-at d [] h (p ++ d ∷ s) free_h,
        split_from-at d [] p s free_p,
        split_from-free d [] s free_s,
      )
      refl
