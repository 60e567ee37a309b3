-- ===== src/Compiler/Identifiers.antt =====
-- The identifiers of the settings blocks: one for each tenant, of the pattern of the schema.
use Prim.Native.Char.{code}
use text.Mathlib.TextEquality.{Char-path}
use text.Mathlib.TextLemmas.{nil-append, cons-append, append_cancel_left}
use opengroupware.Prelude.{
  ℕ, String, ◌≡◌, ◌∙◌, refl, sym, ap, true, List, [], ◌∷◌, map, ok, ◌==◌, nat_eq, Bool-cases, inl,
  inr, all, arith, if◌then◌else◌,
}
use opengroupware.Prelude.Texts.{codes}
use opengroupware.Admin.Validate.{is_label_char, slug_ok, validate_slug}
use opengroupware.Compiler.Policies.{replace, settings_id}

-- A text is known by its code points.
pub codes-injective : (s t : String) → codes s ≡ codes t → s ≡ t
codes-injective String.[] String.[] e = refl
codes-injective String.[] (String.◌∷◌ d t) e = cc
codes-injective (String.◌∷◌ c s) String.[] e = cc
codes-injective (String.◌∷◌ c s) (String.◌∷◌ d t) e =
    let same : code c ≡ code d = cc in
    let rest : codes s ≡ codes t = cc in rw (Char-path c d same, codes-injective s t rest) refl

abbrev pub underscored : ℕ → ℕ
underscored c = if c == b'-' then b'_' else c

pub codes-replace : (s : String) → codes (replace b'-' "_" s) ≡ map underscored (codes s)
unfolding replace
codes-replace String.[] = refl
codes-replace (String.◌∷◌ c s) = elim (Bool-cases (code c == b'-')) [
  | inl dash ↦ rw dash (rw (cons-append, nil-append) (ap (λ l. b'_' ∷ l) (codes-replace s)))
  | inr other ↦ rw other (ap (λ l. code c ∷ l) (codes-replace s))
]

-- On letters, digits and dashes the replacement loses nothing.
underscored-injective :
    (c d : ℕ)
    → is_label_char c ≡ true
    → is_label_char d ≡ true
    → underscored c ≡ underscored d
    → c ≡ d
underscored-injective c d hc hd e = ground arith

map-injective :
    (cs ds : List ℕ)
    → all is_label_char cs ≡ true
    → all is_label_char ds ≡ true
    → map underscored cs ≡ map underscored ds
    → cs ≡ ds
unfolding all
map-injective [] [] hc hd e = refl
map-injective [] (d ∷ ds) hc hd e = cc
map-injective (c ∷ cs) [] hc hd e = cc
map-injective (c ∷ cs) (d ∷ ds) hc hd e =
    let head : underscored c ≡ underscored d = cc in
    let tail : map underscored cs ≡ map underscored ds = cc in
    let same = underscored-injective c d (ground arith) (ground arith) head in
    let rest = map-injective cs ds (ground arith) (ground arith) tail in rw (same, rest) refl

slug_chars : (slug : String) → validate_slug slug ≡ ok tt → all is_label_char (codes slug) ≡ true
unfolding validate_slug slug_ok
slug_chars slug h = ground arith

-- Different valid slugs have different settings identifiers: no tenant's block replaces another's.
pub settings_id-injective :
    (slug other : String)
    → validate_slug slug ≡ ok tt
    → validate_slug other ≡ ok tt
    → settings_id slug ≡ settings_id other
    → slug ≡ other
unfolding settings_id
settings_id-injective slug other valid valid' e = codes-injective slug other (
    map-injective (codes slug) (codes other) (slug_chars slug valid) (slug_chars other valid') (
      sym (codes-replace slug)
      ∙ (ap codes (append_cancel_left "tenant_" _ _ e) ∙ codes-replace other)))
