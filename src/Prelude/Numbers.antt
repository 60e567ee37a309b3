-- ===== src/Prelude/Numbers.antt =====
-- Rust's `i32` and `i64` values as integers, and its `f64` and `f32` values with their order.
use Prim.Native.Nat.{ℕ, suc, ◌+◌, ◌*◌, ◌^◌}
use mathlib.Core.Bool.{Bool, true, false, not}
use opengroupware.Prelude.Tests.{ltb}

-- `negsuc n` is -(n + 1).
pub data ℤ : Type 0 where
  pos : ℕ → ℤ
  negsuc : ℕ → ℤ

abbrev pub pos_part : ℤ → ℕ
pos_part (pos n) = n
pos_part (negsuc n) = 0

abbrev pub neg_part : ℤ → ℕ
neg_part (pos n) = 0
neg_part (negsuc n) = suc n

abbrev pub ltb_ℤ : ℤ → ℤ → Bool
ltb_ℤ a b = ltb (pos_part a + neg_part b) (pos_part b + neg_part a)

abbrev pub leb_ℤ : ℤ → ℤ → Bool
leb_ℤ a b = not (ltb_ℤ b a)

-- An IEEE 754 value. Every finite double is a multiple of 2 ^ -1074: `fin negative k` stands for
-- k * 2 ^ -1074 with that sign. `fin true 0` is the negative zero.
pub data Float64 : Type 0 where
  nan : Float64
  infinite : Bool → Float64
  fin : Bool → ℕ → Float64

abbrev pub is_finite : Float64 → Bool
is_finite nan = false
is_finite (infinite _) = false
is_finite (fin _ _) = true

-- `a < b`, false if one of them is not a number.
abbrev pub ltb_float : Float64 → Float64 → Bool
ltb_float nan b = false
ltb_float a nan = false
ltb_float (infinite true) (infinite true) = false
ltb_float (infinite true) b = true
ltb_float (infinite false) b = false
ltb_float (fin n k) (infinite neg) = not neg
ltb_float (fin false k) (fin false l) = ltb k l
ltb_float (fin false k) (fin true l) = false
ltb_float (fin true k) (fin false l) = ltb 0 (k + l)
ltb_float (fin true k) (fin true l) = ltb l k

-- The double of a small natural number, as the literal `15.0`.
abbrev pub float_ℕ : ℕ → Float64
float_ℕ n = fin false (n * 2 ^ 1074)
