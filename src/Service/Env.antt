-- ===== src/Service/Env.antt =====
-- `resolve_port` of crates/service-kit/src/lib.rs, and `env_parse` of the main.rs files of
-- crates/job-runner and crates/config-compiler at u64, the type of their intervals, and at i64, that
-- of the batch.
use opengroupware.Prelude.{
  ℕ, zero, suc, ℤ, pos, negsuc, ◌+◌, ◌-◌, ◌*◌, ◌^◌, ◌<◌, String, ◌≡◌, refl, Option, none, some,
  List, [], ◌∷◌, ltb, ◌==◌, nat_eq, Bool-cases, inl, inr, arith, if◌then◌else◌,
}
use opengroupware.Prelude.Texts.{codes, is_ascii_digit}

-- The number that digits stand for, after those read so far; none at another character, or if it
-- reaches the bound.
unfoldable pub digits_from : ℕ → ℕ → List ℕ → Option ℕ
digits_from bound n [] = some n
digits_from bound n (c ∷ cs) =
    let more = 10 * n + (c - b'0') in
    let rest = digits_from bound more cs in
    if is_ascii_digit c then if ltb more bound then rest else none else none

abbrev digits : ℕ → List ℕ → Option ℕ
digits bound [] = none
digits bound (c ∷ cs) = digits_from bound 0 (c ∷ cs)

abbrev after_sign : ℕ → List ℕ → Option ℕ
after_sign bound [] = none
after_sign bound (c ∷ cs) = if c == b'+' then digits bound cs else digits bound (c ∷ cs)

-- `str::parse` at an unsigned type of `w` bits.
unfoldable pub parse_unsigned : ℕ → String → Option ℕ
unfolding digits_from
parse_unsigned w s = after_sign (2 ^ w) (codes s)

abbrev negated : Option ℕ → Option ℤ
negated none = none
negated (some zero) = some (pos zero)
negated (some (suc n)) = some (negsuc n)

abbrev as_pos : Option ℕ → Option ℤ
as_pos none = none
as_pos (some n) = some (pos n)

abbrev signed : ℕ → List ℕ → Option ℤ
signed bound [] = none
signed bound (c ∷ cs) =
    if c == b'-' then negated (digits (bound + 1) cs) else as_pos (after_sign bound (c ∷ cs))

-- `str::parse::<i64>`, and `env_parse::<i64>` of the value of a variable.
unfoldable pub parse_i64 : String → Option ℤ
unfolding digits_from
parse_i64 s = signed (2 ^ 63) (codes s)

abbrev ℤ_or : Option ℤ → ℤ → ℤ
ℤ_or none default = default
ℤ_or (some n) default = n

unfoldable pub env_parse_i64 : Option String → ℤ → ℤ
unfolding parse_i64
env_parse_i64 none default = default
env_parse_i64 (some v) default = ℤ_or (parse_i64 v) default

abbrev pub and_parse : ℕ → Option String → Option ℕ
and_parse w none = none
and_parse w (some v) = parse_unsigned w v

abbrev unwrap_or : Option ℕ → ℕ → ℕ
unwrap_or none default = default
unwrap_or (some n) default = n

-- `env_parse::<u64>` of the value of a variable.
unfoldable pub env_parse : Option String → ℕ → ℕ
unfolding parse_unsigned
env_parse value default = unwrap_or (and_parse 64 value) default

-- The value of `PORT`, at u16.
unfoldable pub resolve_port : Option String → ℕ → ℕ
unfolding parse_unsigned
resolve_port value default_port = unwrap_or (and_parse 16 value) default_port

digits_from-bounds :
    (bound n : ℕ) (cs : List ℕ) (m : ℕ) → n < bound → digits_from bound n cs ≡ some m → m < bound
unfolding digits_from
digits_from-bounds bound n [] m h e = ground (arith, h, e)
digits_from-bounds bound n (c ∷ cs) m h e = elim (Bool-cases (is_ascii_digit c)) [
  | inr other ↦ absurd (ground (arith, other, e))
  | inl digit ↦ elim (Bool-cases (ltb (10 * n + (c - b'0')) bound)) [
    | inr over ↦ absurd (ground (arith, digit, over, e))
    | inl within ↦
        digits_from-bounds bound (10 * n + (c - b'0')) cs m (ground (arith, within))
          (ground (arith, digit, within, e))
  ]
]

digits-bounds : (bound : ℕ) (cs : List ℕ) (m : ℕ) → 0 < bound → digits bound cs ≡ some m → m < bound
digits-bounds bound [] m h e = cc
digits-bounds bound (c ∷ cs) m h e = digits_from-bounds bound 0 (c ∷ cs) m h e

after_sign-bounds :
    (bound : ℕ) (cs : List ℕ) (m : ℕ) → 0 < bound → after_sign bound cs ≡ some m → m < bound
after_sign-bounds bound [] m h e = cc
after_sign-bounds bound (c ∷ cs) m h e = elim (Bool-cases (c == b'+')) [
  | inl sign ↦ digits-bounds bound cs m h (rw sign at e)
  | inr plain ↦ digits-bounds bound (c ∷ cs) m h (rw plain at e)
]

-- Whatever `PORT` holds, the port that a service binds fits 16 bits, as the default does.
pub resolve_port-bounds :
    (value : Option String) (default_port : ℕ)
    → default_port < 65536
    → resolve_port value default_port < 65536
unfolding resolve_port
resolve_port-bounds none default_port h = h
resolve_port-bounds (some v) default_port h = go (parse_unsigned 16 v) refl
  where
    go : (n : Option ℕ) → parse_unsigned 16 v ≡ n → unwrap_or n default_port < 65536
    go none e = h
    go (some n) e = after_sign-bounds 65536 (codes v) n (omega arith) e
