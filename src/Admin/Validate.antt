-- ===== src/Admin/Validate.antt =====
-- The validators of crates/admin-api/src/models.rs.
use opengroupware.Prelude.{
  ℕ, String, Bool, true, false, not, ◌&&◌, ◌||◌, Result, ok, err, leb, ◌==◌, nat_eq, all, any, List,
  [], ◌∷◌, is_finite, ltb_float, float_ℕ, if◌then◌else◌,
}
use opengroupware.Prelude.Texts.{
  codes, byte_len, is_ascii_lowercase, is_ascii_digit, starts_with, ends_with, split,
}
use opengroupware.Db.Errors.{ApiError, validation}
use opengroupware.Admin.Models.{SetAbusePolicy}

-- `c.is_ascii_lowercase() || c.is_ascii_digit() || c == '-'`
abbrev pub is_label_char : ℕ → Bool
is_label_char c = is_ascii_lowercase c || (is_ascii_digit c || c == b'-')

unfoldable pub slug_ok : List ℕ → Bool
slug_ok s =
    (leb 2 (byte_len s) && leb (byte_len s) 63)
    && (all is_label_char s && (not (starts_with b'-' s) && not (ends_with b'-' s)))

unfoldable pub validate_slug : String → Result ApiError Unit
unfolding slug_ok
validate_slug slug =
    if slug_ok (codes slug)
    then ok tt
    else err (validation "slug must be 2-63 chars of [a-z0-9-], not starting/ending with '-'")

abbrev is_empty : List ℕ → Bool
is_empty [] = true
is_empty (_ ∷ _) = false

unfoldable pub label_ok : List ℕ → Bool
label_ok label =
    not (is_empty label)
    && (leb (byte_len label) 63
        && (all is_label_char label
            && (not (starts_with b'-' label) && not (ends_with b'-' label))))

unfoldable pub fqdn_ok : List ℕ → Bool
fqdn_ok fqdn =
    leb (byte_len fqdn) 253 && (any (λ c. c == b'.') fqdn && all label_ok (split b'.' fqdn))

unfoldable pub validate_fqdn : String → Result ApiError Unit
unfolding fqdn_ok
validate_fqdn fqdn = if fqdn_ok (codes fqdn) then ok tt else err (validation "invalid fqdn")

abbrev pub is_local_char : ℕ → Bool
is_local_char c =
    is_ascii_lowercase c
    || (is_ascii_digit c || (c == b'.' || (c == b'-' || (c == b'_' || c == b'+'))))

unfoldable pub local_ok : List ℕ → Bool
local_ok local =
    (leb 1 (byte_len local) && leb (byte_len local) 64)
    && (all is_local_char local && (not (starts_with b'.' local) && not (ends_with b'.' local)))

unfoldable pub validate_local_part : String → Result ApiError Unit
unfolding local_ok
validate_local_part local =
    if local_ok (codes local)
    then ok tt
    else err
        (validation "local part must be 1-64 chars of [a-z0-9.+_-], not starting/ending with '.'")

unfoldable pub policy_ok : SetAbusePolicy → Bool
policy_ok p =
    let finite = is_finite p.reject && (is_finite p.add_header && is_finite p.greylist) in
    let ordered =
      ltb_float (float_ℕ 0) p.greylist
      && (ltb_float p.greylist p.add_header && ltb_float p.add_header p.reject) in
    finite && ordered

unfoldable pub validate_policy : SetAbusePolicy → Result ApiError Unit
unfolding policy_ok
validate_policy p =
    if policy_ok p
    then ok tt
    else err (validation "thresholds must be finite and satisfy 0 < greylist < add_header < reject")
