-- ===== src/Prelude/Texts.antt =====
-- Texts that the program walks: their characters, byte length and parts.
use Prim.Native.Char.{code}
use Prim.Native.Nat.{ℕ, ◌+◌}
use Prim.Native.String.{String}
use mathlib.Core.Bool.{Bool, false, ◌&&◌, ◌||◌}
use mathlib.Core.List.{List, [], ◌∷◌, ◌++◌}
use mathlib.Core.Option.{Option, none, some}
use opengroupware.Prelude.Lists.{all}
use opengroupware.Prelude.Tests.{ltb, leb, ◌==◌, nat_eq, if◌then◌else◌}

-- The code points of a text.
abbrev pub codes : String → List ℕ
codes String.[] = []
codes (String.◌∷◌ c s) = code c ∷ codes s

-- The bytes of a character in UTF-8.
abbrev pub utf8_width : ℕ → ℕ
utf8_width c = if ltb c 128 then 1 else if ltb c 2048 then 2 else if ltb c 65536 then 3 else 4

-- `s.len()`
unfoldable pub byte_len : List ℕ → ℕ
byte_len [] = 0
byte_len (c ∷ cs) = utf8_width c + byte_len cs

abbrev pub is_ascii_lowercase : ℕ → Bool
is_ascii_lowercase c = leb b'a' c && leb c b'z'

abbrev pub is_ascii_digit : ℕ → Bool
is_ascii_digit c = leb b'0' c && leb c b'9'

-- `s.starts_with(c)` and `s.ends_with(c)` for a character `c`.
abbrev pub starts_with : ℕ → List ℕ → Bool
starts_with d [] = false
starts_with d (c ∷ cs) = c == d

abbrev pub ends_with : ℕ → List ℕ → Bool
ends_with d [] = false
ends_with d (c ∷ []) = c == d
ends_with d (c ∷ e ∷ cs) = ends_with d (e ∷ cs)

-- `s.split(d)`: the parts between the separators, one more than there are separators.
unfoldable pub split_from : ℕ → List ℕ → List ℕ → List (List ℕ)
split_from d cur [] = cur ∷ []
split_from d cur (c ∷ cs) =
    let closed = cur ∷ split_from d [] cs in
    let longer = split_from d (cur ++ c ∷ []) cs in if c == d then closed else longer

unfoldable pub split : ℕ → List ℕ → List (List ℕ)
unfolding split_from
split d cs = split_from d [] cs

-- `char::is_whitespace`, the characters that `str::trim` removes.
unfoldable pub is_whitespace : ℕ → Bool
is_whitespace c =
    (leb 9 c && leb c 13)
    || (c == 32
        || (c == 133
            || (c == 160
                || (c == 5760
                    || ((leb 8192 c && leb c 8202)
                        || (c == 8232
                            || (c == 8233 || (c == 8239 || (c == 8287 || c == 12288)))))))))

-- `s.trim().is_empty()`
unfoldable pub is_blank : String → Bool
unfolding is_whitespace
is_blank s = all is_whitespace (codes s)

-- `.filter(|v| !v.trim().is_empty())`
abbrev pub filled : Option String → Option String
filled none = none
filled (some v) = if is_blank v then none else some v
