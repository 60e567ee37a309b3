-- ===== src/Admin/Backstop.antt =====
-- The validators against the CHECK constraints that stand behind them.
use opengroupware.Prelude.{
  ℕ, ◌≡◌, ◌↔◌, refl, ap, inl, inr, String, true, false, Bool-cases, List, [], ◌∷◌, ◌++◌, ok, ◌==◌,
  nat_eq, all, any, length, arith, is_finite,
}
use opengroupware.Prelude.Texts.{codes, byte_len, ends_with, split_from, split}
use opengroupware.Admin.Models.{SetAbusePolicy}
use opengroupware.Admin.Validate.{
  is_label_char, slug_ok, validate_slug, label_ok, fqdn_ok, validate_fqdn, policy_ok,
  validate_policy,
}
use opengroupware.Admin.Checks.{
  is_alnum, slug_check, last_is_alnum, label_check, top_level_check, labels_check, fqdn_check,
  policy_check,
}

-- Label characters take one byte each.
byte_len-eq-length : (cs : List ℕ) → all is_label_char cs ≡ true → byte_len cs ≡ length cs
unfolding byte_len all
byte_len-eq-length [] h = refl
byte_len-eq-length (c ∷ cs) h = ground (arith, byte_len-eq-length cs)

-- Not led by a dash, a label begins with a letter or a digit.
alnum_of_not_dash : (c : ℕ) → is_label_char c ≡ true → (c == b'-') ≡ false → is_alnum c ≡ true
alnum_of_not_dash c h k = ground arith

last-alnum :
    (c : ℕ) (cs : List ℕ)
    → all is_label_char cs ≡ true
    → ends_with b'-' (c ∷ cs) ≡ false
    → last_is_alnum cs ≡ true
unfolding all
last-alnum c [] h k = refl
last-alnum c (d ∷ []) h k = ground (arith, alnum_of_not_dash d)
last-alnum c (d ∷ e ∷ cs) h k = last-alnum d (e ∷ cs) (ground arith) k

slug_ok-slug_check : (cs : List ℕ) → slug_ok cs ≡ true → slug_check cs ≡ true
unfolding slug_ok slug_check all
slug_ok-slug_check [] h = ground (arith, byte_len-eq-length [])
slug_ok-slug_check (c ∷ cs) h = ground (arith, byte_len-eq-length (c ∷ cs), alnum_of_not_dash c)

-- A slug that the validator accepts satisfies the table's constraint.
pub validate_slug-slug_check :
    (slug : String) → validate_slug slug ≡ ok tt → slug_check (codes slug) ≡ true
unfolding validate_slug
validate_slug-slug_check slug h = elim (Bool-cases (slug_ok (codes slug))) [
  | inl yes_ok ↦ slug_ok-slug_check (codes slug) yes_ok
  | inr no_ok ↦ ground arith
]

label_ok-label_check : (cs : List ℕ) → label_ok cs ≡ true → label_check cs ≡ true
unfolding label_ok label_check all
label_ok-label_check [] h = ground arith
label_ok-label_check (c ∷ cs) h =
    ground (arith, byte_len-eq-length (c ∷ cs), alnum_of_not_dash c, last-alnum c cs)

abbrev pub last_label : List (List ℕ) → List ℕ
last_label [] = []
last_label (l ∷ []) = l
last_label (l ∷ m ∷ ls) = last_label (m ∷ ls)

labels_check-last :
    (l m : List ℕ) (ls : List (List ℕ))
    → all label_ok (l ∷ m ∷ ls) ≡ true
    → labels_check (l ∷ m ∷ ls) ≡ top_level_check (last_label (m ∷ ls))
unfolding labels_check all
labels_check-last l m [] h = ground (arith, label_ok-label_check l)
labels_check-last l m (n ∷ ls) h = ground (arith, label_ok-label_check l, labels_check-last m n ls)

split_from-one :
    (d : ℕ) (cur cs : List ℕ) → (m : List ℕ) × (ls : List (List ℕ)) × (split_from d cur cs ≡ m ∷ ls)
unfolding split_from
split_from-one d cur [] = (cur, [], refl)
split_from-one d cur (c ∷ cs) = elim (Bool-cases (c == d)) [
  | inl same ↦ (cur, split_from d [] cs, rw same)
  | inr other ↦ let (m, ls, p) = split_from-one d (cur ++ c ∷ []) cs in (m, ls, rw other p)
]

-- A text with a separator has at least two parts.
split_from-two :
    (d : ℕ) (cur cs : List ℕ)
    → any (λ c. c == d) cs ≡ true
    → (l : List ℕ) × (m : List ℕ) × (ls : List (List ℕ)) × (split_from d cur cs ≡ l ∷ m ∷ ls)
unfolding split_from any
split_from-two d cur [] h = absurd (ground arith)
split_from-two d cur (c ∷ cs) h = elim (Bool-cases (c == d)) [
  | inl same ↦
      let (m, ls, e) = split_from-one d [] cs in (cur, m, ls, rw same (ap (λ t. cur ∷ t) e))
  | inr other ↦
      let (l, m, ls, e) = split_from-two d (cur ++ c ∷ []) cs (ground arith) in
      (l, m, ls, rw other e)
]

fqdn_ok_parts :
    (cs : List ℕ)
    → fqdn_ok cs ≡ true
    → (any (λ c. c == b'.') cs ≡ true) × (all label_ok (split_from b'.' [] cs) ≡ true)
unfolding fqdn_ok split
fqdn_ok_parts cs h = ground arith

-- Of a name that the validator accepts, the table's constraint asks one thing more: that the last
-- label is made of 2 to 63 letters. Without that the insertion is refused by the database.
pub fqdn_check-last :
    (fqdn : String)
    → validate_fqdn fqdn ≡ ok tt
    → fqdn_check (codes fqdn) ≡ top_level_check (last_label (split b'.' (codes fqdn)))
unfolding validate_fqdn fqdn_check split
fqdn_check-last fqdn h =
    let valid : fqdn_ok (codes fqdn) ≡ true = ground arith in
    let (dotted, labels) = fqdn_ok_parts (codes fqdn) valid in
    let (l, m, ls, e) = split_from-two b'.' [] (codes fqdn) dotted in
    rw e (labels_check-last l m ls (rw e at labels))

-- Thresholds are accepted exactly if they are finite and satisfy the table's constraints.
pub validate_policy_iff :
    (p : SetAbusePolicy)
    → (validate_policy p ≡ ok tt) ↔ (
        (is_finite p.reject ≡ true)
        × (is_finite p.add_header ≡ true)
        × (is_finite p.greylist ≡ true)
        × (policy_check p.reject p.add_header p.greylist ≡ true))
unfolding validate_policy policy_ok policy_check
validate_policy_iff p = ground arith
