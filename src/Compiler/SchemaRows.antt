-- ===== src/Compiler/SchemaRows.antt =====
-- The entries that the query of Compiler/Policies and its grouping give over well-formed tables.
use opengroupware.Prelude.{
  ℕ, String, Float64, is_finite, ◌≡◌, ◌≢◌, ◌∙◌, refl, ap, subst, Bool, true, ◌&&◌, ◌||◌, Option,
  none, some, List, [], ◌∷◌, ◌++◌, map, ok, ◌==◌, nat_eq, string_eq, Bool-cases, inl, inr, all,
  arith, select, find?, All, All-append, All-concat, All-map, All-select, All-weaken,
}
use opengroupware.Prelude.Texts.{codes, split, split_from, is_ascii_lowercase, is_ascii_digit}
use opengroupware.Db.World.{Uuid}
use opengroupware.Db.Session.{Session, visible}
use opengroupware.Admin.Models.{Tenant, Domain, AbusePolicy}
use opengroupware.Admin.Validate.{is_label_char}
use opengroupware.Admin.Emails.{codes-append}
use opengroupware.Admin.Checks.{slug_check, fqdn_check, labels_check, policy_check}
use opengroupware.Admin.Tables.{Control}
use opengroupware.Admin.WellFormed.{WellFormed, TenantOk, DomainOk, PolicyOk}
use opengroupware.Compiler.Identifiers.{underscored, codes-replace}
use opengroupware.Compiler.Policies.{
  SettingsRow, TenantPolicy, joined, rows_of, is_routed, join_rows, Collation, select_settings,
  settings_id, replace, before, new_policy, with_domain, add_row, group_from,
}

-- Thresholds in their order, and finite.
abbrev pub actions_check : (reject add_header greylist : Float64) → Bool
actions_check reject add_header greylist =
    policy_check reject add_header greylist
    && (is_finite reject && (is_finite add_header && is_finite greylist))

-- A row of the query over well-formed tables.
abbrev pub RowOk : SettingsRow → Type 0
RowOk r =
    (slug_check (codes r.slug) ≡ true)
    × (fqdn_check (codes r.fqdn) ≡ true)
    × (actions_check r.reject r.add_header r.greylist ≡ true)

module _ {A : Type 0} (P : A → Type 0) where
  All-found : (p : A → Bool) (xs : List A) (x : A) → find? p xs ≡ some x → All P xs → P x
  unfolding find?
  All-found p [] x found h = absurd (ground (arith, found))
  All-found p (y ∷ ys) x found (py, h) = elim (Bool-cases (p y)) [
    | inl on ↦ subst P (ground (arith, on, found)) py
    | inr off ↦ All-found p ys x (ground (arith, off, found)) h
  ]

joined-Ok :
    (t : Tenant) (found : Option AbusePolicy) (d : Domain)
    → TenantOk t
    → ((ap : AbusePolicy) → found ≡ some ap → PolicyOk ap)
    → DomainOk d
    → RowOk (joined t found d)
unfolding policy_check
joined-Ok t none d slug_ok ap_ok fqdn_ok = (slug_ok, fqdn_ok, refl)
joined-Ok t (some ap) d slug_ok ap_ok fqdn_ok =
    let (ordered, reject, add_header, greylist) = ap_ok ap refl in
    (slug_ok, fqdn_ok, ground (arith, ordered, reject, add_header, greylist))

rows_of-Ok :
    (se : Session) (s : Control) (t : Tenant)
    → WellFormed s
    → TenantOk t
    → All RowOk (rows_of se s t)
rows_of-Ok se s t h slug_ok =
    let p = λ (r : AbusePolicy). visible se r.tenant_id && r.tenant_id == t.id in
    let found = find? p s.abuse_policy in
    All-map RowOk (joined t found) (select (is_routed se t) s.domains) (
      All-weaken DomainOk (λ d. RowOk (joined t found d)) _
        (λ d.
          joined-Ok t found d slug_ok
            λ ap at_ap. All-found PolicyOk p s.abuse_policy ap at_ap h.policies_ok)
        (All-select DomainOk (is_routed se t) s.domains h.domains_ok))

pub join_rows-Ok :
    (se : Session) (s : Control) (ts : List Tenant)
    → WellFormed s
    → All TenantOk ts
    → All RowOk (join_rows se s ts)
unfolding join_rows
join_rows-Ok se s [] h ok_ts = tt
join_rows-Ok se s (t ∷ ts) h (slug_ok, ok_ts) = elim (Bool-cases (t.status == "active")) [
  | inl on ↦ rw on (
      All-append RowOk (rows_of se s t) (join_rows se s ts) (rows_of-Ok se s t h slug_ok)
        (join_rows-Ok se s ts h ok_ts))
  | inr off ↦ rw off (join_rows-Ok se s ts h ok_ts)
]

pub select_settings_lem :
    (order : Collation) (se : Session) (id : Uuid) (s : Control) (rows : List SettingsRow)
    (s' : Control)
    → select_settings order se id s ≡ ok (rows, s')
    → (rows ≡ order (join_rows se s s.tenants)) × (s' ≡ s)
unfolding select_settings
select_settings_lem order se id s rows s' ran = (ground arith, ground arith)

-- An entry that the rows of well-formed tables give.
pub record EntryOk (p : TenantPolicy) : Type 0 where
  pub slug_ok : slug_check (codes p.slug) ≡ true
  pub id_eq : p.settings_id ≡ settings_id p.slug
  pub some_domain : p.domains ≢ []
  pub domains_ok : All (λ d. fqdn_check (codes d) ≡ true) p.domains
  pub actions_ok : actions_check p.reject p.add_header p.greylist ≡ true

nonempty : {A : Type 0} (xs : List A) (x : A) → xs ++ x ∷ [] ≢ []
nonempty [] x e = cc
nonempty (y ∷ ys) x e = cc

add_row-Ok :
    (r : SettingsRow) (ps : List TenantPolicy)
    → RowOk r
    → All EntryOk ps
    → All EntryOk (add_row r ps)
unfolding add_row
add_row-Ok r [] (slug_ok, fqdn_ok, actions_ok) h = (
  record {
    slug_ok = slug_ok;
    id_eq = refl;
    some_domain = λ e. cc;
    domains_ok = (fqdn_ok, tt);
    actions_ok = actions_ok;
  },
  tt,
)
add_row-Ok r (p ∷ ps) (slug_ok, fqdn_ok, actions_ok) (p_ok, h) =
    let fresh : EntryOk (new_policy r) = record {
      slug_ok = slug_ok;
      id_eq = refl;
      some_domain = λ e. cc;
      domains_ok = (fqdn_ok, tt);
      actions_ok = actions_ok;
    } in
    let longer : EntryOk (with_domain r.fqdn p) = record {
      slug_ok = p_ok.slug_ok;
      id_eq = p_ok.id_eq;
      some_domain = nonempty p.domains r.fqdn;
      domains_ok = All-concat _ p.domains r.fqdn p_ok.domains_ok fqdn_ok;
      actions_ok = p_ok.actions_ok;
    } in
    elim (Bool-cases (p.slug == r.slug)) [
      | inl same ↦ rw same (longer, h)
      | inr other ↦ elim (Bool-cases (before (codes r.slug) (codes p.slug))) [
        | inl first ↦ rw (other, first) (fresh, (p_ok, h))
        | inr later ↦ rw (other, later) (p_ok, add_row-Ok r ps (slug_ok, fqdn_ok, actions_ok) h)
      ]
    ]

pub group_from-Ok :
    (ps : List TenantPolicy) (rows : List SettingsRow)
    → All RowOk rows
    → All EntryOk ps
    → All EntryOk (group_from ps rows)
unfolding group_from
group_from-Ok ps [] h k = k
group_from-Ok ps (r ∷ rs) (r_ok, h) k = group_from-Ok (add_row r ps) rs h (add_row-Ok r ps r_ok k)

-- `[a-z0-9_]`
abbrev pub is_id_char : ℕ → Bool
is_id_char c = is_ascii_lowercase c || (is_ascii_digit c || c == b'_')

pub slug_some : (cs : List ℕ) → slug_check cs ≡ true → cs ≢ []
unfolding slug_check
slug_some [] h e = absurd (ground (arith, h))
slug_some (c ∷ cs) h e = cc

pub map_some : (cs : List ℕ) → cs ≢ [] → map underscored cs ≢ []
map_some [] h e = h refl
map_some (c ∷ cs) h e = cc

label_chars :
    (cs : List ℕ) → all is_label_char cs ≡ true → all is_id_char (map underscored cs) ≡ true
unfolding all
label_chars [] h = refl
label_chars (c ∷ cs) h =
    let rest = label_chars cs (ground (arith, h)) in
    let first : is_id_char (underscored c) ≡ true = ground (arith, h) in ground (arith, first, rest)

pub slug_chars : (cs : List ℕ) → slug_check cs ≡ true → all is_id_char (map underscored cs) ≡ true
unfolding slug_check all
slug_chars [] h = refl
slug_chars (c ∷ cs) h =
    let rest = label_chars cs (ground (arith, h)) in
    let first : is_id_char (underscored c) ≡ true = ground (arith, h) in ground (arith, first, rest)

pub fqdn_some : (cs : List ℕ) → fqdn_check cs ≡ true → cs ≢ []
unfolding fqdn_check split split_from labels_check
fqdn_some [] h e = absurd (ground (arith, h))
fqdn_some (c ∷ cs) h e = cc

pub codes-settings_id :
    (slug : String) → codes (settings_id slug) ≡ codes "tenant_" ++ map underscored (codes slug)
unfolding settings_id
codes-settings_id slug =
    codes-append "tenant_" (replace b'-' "_" slug)
    ∙ ap (λ l. codes "tenant_" ++ l) (codes-replace slug)
