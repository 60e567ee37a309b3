-- ===== src/Admin/Checks.antt =====
-- The CHECK constraints of crates/admin-api/migrations.
use opengroupware.Prelude.{
  ℕ, Bool, true, false, ◌&&◌, ◌||◌, leb, nat_eq, string_eq, all, length, List, [], ◌∷◌, ℤ, pos,
  leb_ℤ, Float64, ltb_float, float_ℕ,
}
use opengroupware.Prelude.Texts.{is_ascii_lowercase, is_ascii_digit, split}
use opengroupware.Admin.Validate.{is_label_char}

abbrev pub is_alnum : ℕ → Bool
is_alnum c = is_ascii_lowercase c || is_ascii_digit c

-- `slug ~ '^[a-z0-9][a-z0-9-]{1,62}$'`
unfoldable pub slug_check : List ℕ → Bool
slug_check [] = false
slug_check (c ∷ cs) =
    is_alnum c && ((leb 1 (length cs) && leb (length cs) 62) && all is_label_char cs)

abbrev pub last_is_alnum : List ℕ → Bool
last_is_alnum [] = true
last_is_alnum (c ∷ []) = is_alnum c
last_is_alnum (c ∷ d ∷ cs) = last_is_alnum (d ∷ cs)

-- `[a-z0-9]([a-z0-9-]{0,61}[a-z0-9])?`
unfoldable pub label_check : List ℕ → Bool
label_check [] = false
label_check (c ∷ cs) =
    is_alnum c && (leb (length cs) 62 && (all is_label_char cs && last_is_alnum cs))

-- `[a-z]{2,63}`
unfoldable pub top_level_check : List ℕ → Bool
top_level_check cs = leb 2 (length cs) && (leb (length cs) 63 && all is_ascii_lowercase cs)

-- One label and a dot, at least once, and then the top-level label.
unfoldable pub labels_check : List (List ℕ) → Bool
labels_check [] = false
labels_check (_ ∷ []) = false
labels_check (label ∷ top ∷ []) = label_check label && top_level_check top
labels_check (label ∷ next ∷ more ∷ labels) =
    label_check label && labels_check (next ∷ more ∷ labels)

-- `fqdn ~ '^([a-z0-9]([a-z0-9-]{0,61}[a-z0-9])?\.)+[a-z]{2,63}$'`: no class of the pattern holds
-- a dot, so it is matched label by label.
unfoldable pub fqdn_check : List ℕ → Bool
fqdn_check cs = labels_check (split b'.' cs)

-- `quota_mb BETWEEN 1 AND 1048576`
unfoldable pub quota_check : ℤ → Bool
quota_check quota = leb_ℤ (pos 1) quota && leb_ℤ quota (pos 1048576)

-- The table constraint and the column constraints of `abuse_policy`. Postgres puts NaN above every
-- number, so `0 < NaN` holds there, as `NaN < x` does not.
abbrev pub sql_ltb : Float64 → Float64 → Bool
sql_ltb Float64.nan b = false
sql_ltb (Float64.infinite n) Float64.nan = true
sql_ltb (Float64.fin n k) Float64.nan = true
sql_ltb a b = ltb_float a b

unfoldable pub policy_check : Float64 → Float64 → Float64 → Bool
policy_check reject add_header greylist =
    (sql_ltb (float_ℕ 0) reject && (sql_ltb (float_ℕ 0) add_header && sql_ltb (float_ℕ 0) greylist))
    && (sql_ltb greylist add_header && sql_ltb add_header reject)
