-- ===== src/Admin/Emails.antt =====
-- The e-mail addresses that `create_account` puts together.
use Prim.Native.Char.{code}
use Prim.Native.String
use text.Mathlib.TextLemmas.{nil-append, cons-append}
use opengroupware.Prelude.{
  ℕ, ◌≡◌, ◌∙◌, refl, ap, inl, inr, String, true, false, Bool-cases, List, [], ◌∷◌, ◌++◌, ok, ◌==◌,
  nat_eq, all, any, any-append, arith,
}
use opengroupware.Prelude.Splitting.{has, split_from-free, split_from-at}
use opengroupware.Prelude.Texts.{is_ascii_lowercase, codes, split_from, split}
use opengroupware.Admin.Validate.{is_label_char, is_local_char, local_ok, validate_local_part}
use opengroupware.Admin.Checks.{label_check, top_level_check, labels_check, fqdn_check}
use opengroupware.Admin.Routes.{email_of}

pub codes-append : (s t : String) → codes (String.◌++◌ s t) ≡ codes s ++ codes t
codes-append String.[] t = rw nil-append refl
codes-append (String.◌∷◌ c s) t = rw cons-append (ap (λ l. code c ∷ l) (codes-append s t))

-- No character of an accepted local part is an `@`.
local-free : (cs : List ℕ) → all is_local_char cs ≡ true → has b'@' cs ≡ false
unfolding all any
local-free [] h = refl
local-free (c ∷ cs) h = ground (arith, local-free cs)

labels-free : (cs : List ℕ) → all is_label_char cs ≡ true → has b'@' cs ≡ false
unfolding all any
labels-free [] h = refl
labels-free (c ∷ cs) h = ground (arith, labels-free cs)

lowercase-free : (cs : List ℕ) → all is_ascii_lowercase cs ≡ true → has b'@' cs ≡ false
unfolding all any
lowercase-free [] h = refl
lowercase-free (c ∷ cs) h = ground (arith, lowercase-free cs)

label_check-free : (cs : List ℕ) → label_check cs ≡ true → has b'@' cs ≡ false
unfolding label_check any
label_check-free [] h = cc
label_check-free (c ∷ cs) h = ground (arith, labels-free cs)

top_level_check-free : (cs : List ℕ) → top_level_check cs ≡ true → has b'@' cs ≡ false
unfolding top_level_check
top_level_check-free cs h = lowercase-free cs (ground arith)

labels_check-free : (ls : List (List ℕ)) → labels_check ls ≡ true → any (λ l. has b'@' l) ls ≡ false
unfolding labels_check any
labels_check-free [] h = refl
labels_check-free (l ∷ []) h = cc
labels_check-free (l ∷ m ∷ []) h = ground (arith, label_check-free l, top_level_check-free m)
labels_check-free (l ∷ m ∷ n ∷ ls) h =
    ground (arith, label_check-free l, labels_check-free (m ∷ n ∷ ls))

-- A character that no part has, and that is not the separator, is not in the text.
split_from-parts :
    (cur cs : List ℕ)
    → any (λ l. has b'@' l) (split_from b'.' cur cs) ≡ false
    → (has b'@' cur ≡ false) × (has b'@' cs ≡ false)
unfolding split_from any
split_from-parts cur [] h = ground arith
split_from-parts cur (c ∷ cs) h = elim (Bool-cases (c == b'.')) [
  | inl dot ↦
      let found = rw dot at h in
      let later = split_from-parts [] cs (ground arith) in (ground arith, ground (arith, later))
  | inr other ↦
      let (mine, later) = split_from-parts (cur ++ c ∷ []) cs (rw other at h) in
      let both = any-append (λ x. x == b'@') cur (c ∷ []) in (ground arith, ground arith)
]

local_ok_chars : (cs : List ℕ) → local_ok cs ≡ true → all is_local_char cs ≡ true
unfolding local_ok
local_ok_chars cs h = ground arith

fqdn_check_labels :
    (cs : List ℕ) → fqdn_check cs ≡ true → any (λ l. has b'@' l) (split_from b'.' [] cs) ≡ false
unfolding fqdn_check split
fqdn_check_labels cs h = labels_check-free (split_from b'.' [] cs) h

-- An address made of an accepted local part and of a stored domain name splits at its only `@`
-- into these two: no address stands for two mailboxes.
pub split-email_of :
    (local fqdn : String)
    → validate_local_part local ≡ ok tt
    → fqdn_check (codes fqdn) ≡ true
    → split b'@' (codes (email_of local fqdn)) ≡ codes local ∷ codes fqdn ∷ []
unfolding split validate_local_part
split-email_of local fqdn valid checked =
    let local_chars : local_ok (codes local) ≡ true = ground arith in
    let here = local-free (codes local) (local_ok_chars (codes local) local_chars) in
    let there = (split_from-parts [] (codes fqdn) (fqdn_check_labels (codes fqdn) checked)).1 in
    rw (codes-append, codes-append)
      (split_from-at b'@' [] (codes local) (codes fqdn) here
        ∙ ap (λ t. codes local ∷ t) (split_from-free b'@' [] (codes fqdn) there))
