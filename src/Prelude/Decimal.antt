-- ===== src/Prelude/Decimal.antt =====
-- Rust's `{}` for a natural number and `{:.1}` for a float.
use Prim.Native.Nat.{ℕ, zero, suc, ◌+◌, ◌*◌, ◌/◌, ◌%◌, ◌^◌}
use Prim.Native.String
use Prim.Native.String.{String}
use mathlib.Core.Bool.{true, false, ◌&&◌, ◌||◌}
use opengroupware.Prelude.Tests.{ltb, ◌==◌, nat_eq, if◌then◌else◌}
use opengroupware.Prelude.Numbers.{Float64, nan, infinite, fin}

infixr 65 ◌⊕◌
abbrev pub ◌⊕◌ : String → String → String
s ⊕ t = String.◌++◌ s t

digit : ℕ → String
digit d =
    if d == 0
    then "0"
    else if d == 1
    then "1"
    else if d == 2
    then "2"
    else if d == 3
    then "3"
    else if d == 4
    then "4"
    else if d == 5
    then "5"
    else if d == 6
    then "6"
    else if d == 7
    then "7"
    else if d == 8
    then "8"
    else "9"

-- The digits of `n` before `rest`; a number has fewer digits than the fuel `suc n`.
show_from : ℕ → ℕ → String → String
unfolding digit
show_from zero n rest = rest
show_from (suc fuel) n rest =
    let more = show_from fuel (n / 10) (digit (n % 10) ⊕ rest) in
    if ltb n 10 then digit n ⊕ rest else more

unfoldable pub show_ℕ : ℕ → String
unfolding show_from
show_ℕ n = show_from (suc n) n ""

-- `a / b` to the nearest number, to the even one of two that are as near.
unfoldable pub round_half_even : ℕ → ℕ → ℕ
round_half_even a b =
    let q = a / b in
    let r = a % b in if ltb (2 * r) b || (2 * r == b && q % 2 == 0) then q else q + 1

-- `{:.1}` of `k * 2 ^ -1074`.
tenths : ℕ → String
unfolding round_half_even show_ℕ
tenths k = let t = round_half_even (k * 10) (2 ^ 1074) in show_ℕ (t / 10) ⊕ "." ⊕ show_ℕ (t % 10)

unfoldable pub fmt1 : Float64 → String
unfolding tenths
fmt1 nan = "NaN"
fmt1 (infinite true) = "-inf"
fmt1 (infinite false) = "inf"
fmt1 (fin true k) = "-" ⊕ tenths k
fmt1 (fin false k) = tenths k
