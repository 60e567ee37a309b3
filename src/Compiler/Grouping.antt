-- ===== src/Compiler/Grouping.antt =====
-- What the grouping of the query's rows keeps.
use mathlib.Core.List.{append-nil, append_assoc}
use opengroupware.Prelude.{
  ℕ, ◌+◌, suc, String, ◌≡◌, ◌∙◌, refl, sym, ap, Bool, true, false, List, [], ◌∷◌, ◌++◌, map, ◌==◌,
  nat_eq, string_eq, str_iff, Bool-cases, inl, inr, select, length, length-append, All, All-weaken,
  arith, subst, if◌then◌else◌,
}
use opengroupware.Prelude.Texts.{codes}
use opengroupware.Compiler.Policies.{SettingsRow, TenantPolicy, before, add_row, group_from, group}
use opengroupware.Compiler.Identifiers.{codes-injective}
use opengroupware.Compiler.Cycle.{domain_count}
use opengroupware.Compiler.KeyOrder.{before_trans, before-irreflexive, before-total}

-- All policies have slugs after this one.
abbrev Above : List ℕ → List TenantPolicy → Type 0
Above a ps = All (λ (p : TenantPolicy). before a (codes p.slug) ≡ true) ps

-- The slugs are in the order of the map, each but once.
abbrev pub Increasing : List TenantPolicy → Type 0
Increasing [] = Unit
Increasing (p ∷ ps) = Above (codes p.slug) ps × Increasing ps

Above-add_row :
    (a : List ℕ) (r : SettingsRow) (ps : List TenantPolicy)
    → before a (codes r.slug) ≡ true
    → Above a ps
    → Above a (add_row r ps)
unfolding add_row
Above-add_row a r [] h k = (h, tt)
Above-add_row a r (p ∷ ps) h (kp, k) = elim (Bool-cases (p.slug == r.slug)) [
  | inl same ↦ rw same (kp, k)
  | inr other ↦ elim (Bool-cases (before (codes r.slug) (codes p.slug))) [
    | inl first ↦ rw (other, first) (h, (kp, k))
    | inr later ↦ rw (other, later) (kp, Above-add_row a r ps h k)
  ]
]

after :
    (r : SettingsRow) (p : TenantPolicy)
    → (p.slug == r.slug) ≡ false
    → before (codes r.slug) (codes p.slug) ≡ false
    → before (codes p.slug) (codes r.slug) ≡ true
after r p other later = elim (Bool-cases (before (codes p.slug) (codes r.slug))) [
  | inl sooner ↦ sooner
  | inr neither ↦
      let same = codes-injective p.slug r.slug (before-total _ _ neither later) in
      absurd (ground (arith, other, (str_iff p.slug r.slug).1 same))
]

Increasing-add_row :
    (r : SettingsRow) (ps : List TenantPolicy) → Increasing ps → Increasing (add_row r ps)
unfolding add_row
Increasing-add_row r [] h = (tt, tt)
Increasing-add_row r (p ∷ ps) (above, h) = elim (Bool-cases (p.slug == r.slug)) [
  | inl same ↦ rw same (above, h)
  | inr other ↦ elim (Bool-cases (before (codes r.slug) (codes p.slug))) [
    | inl first ↦
        rw (other, first)
          (
            (
              first,
              All-weaken _ _ ps
                  (λ q on. before_trans (codes r.slug) (codes p.slug) (codes q.slug) first on)
                  above,
            ),
            (above, h),
          )
    | inr later ↦
        rw (other, later)
          (
            Above-add_row (codes p.slug) r ps (after r p other later) above,
            Increasing-add_row r ps h,
          )
  ]
]

-- The domains under a slug.
abbrev pub domains_of : String → List TenantPolicy → List String
domains_of slug [] = []
domains_of slug (p ∷ ps) = if p.slug == slug then p.domains else domains_of slug ps

abbrev one_if : Bool → String → List String
one_if true fqdn = fqdn ∷ []
one_if false fqdn = []

domains_of-Above :
    (slug : String) (ps : List TenantPolicy) → Above (codes slug) ps → domains_of slug ps ≡ []
domains_of-Above slug [] h = refl
domains_of-Above slug (p ∷ ps) (hp, h) = elim (Bool-cases (p.slug == slug)) [
  | inl same ↦
      let itself : before (codes slug) (codes slug) ≡ true =
        subst (λ a. before (codes slug) (codes a) ≡ true) ((str_iff p.slug slug).0 same) hp in
      absurd (ground (arith, itself, before-irreflexive (codes slug)))
  | inr other ↦ rw other (domains_of-Above slug ps h)
]

-- A slug and a name that it is told apart from.
apart : (a b slug : String) → (a == b) ≡ false → (a == slug) ≡ true → (b == slug) ≡ false
apart a b slug other on = elim (Bool-cases (b == slug)) [
  | inl also ↦
      let same : a ≡ b = (str_iff a slug).0 on ∙ sym ((str_iff b slug).0 also) in
      absurd (ground (arith, other, (str_iff a b).1 same))
  | inr off ↦ off
]

Above-first :
    (r : SettingsRow) (slug : String) (p : TenantPolicy) (ps : List TenantPolicy)
    → (r.slug == slug) ≡ true
    → before (codes r.slug) (codes p.slug) ≡ true
    → Above (codes p.slug) ps
    → Above (codes slug) (p ∷ ps)
Above-first r slug p ps on first above =
    let first' : before (codes slug) (codes p.slug) ≡ true =
      subst (λ a. before (codes a) (codes p.slug) ≡ true) ((str_iff r.slug slug).0 on) first in
    (
      first',
      All-weaken _ _ ps (λ q h. before_trans (codes slug) (codes p.slug) (codes q.slug) first' h)
          above,
    )

domains_of-add_row :
    (slug : String) (r : SettingsRow) (ps : List TenantPolicy)
    → Increasing ps
    → domains_of slug (add_row r ps) ≡ domains_of slug ps ++ one_if (r.slug == slug) r.fqdn
unfolding add_row
domains_of-add_row slug r [] h = elim (Bool-cases (r.slug == slug)) [
  | inl on ↦ rw on refl
  | inr off ↦ rw off refl
]
domains_of-add_row slug r (p ∷ ps) (above, h) = elim (Bool-cases (p.slug == r.slug)) [
  | inl same ↦ elim (Bool-cases (p.slug == slug)) [
    | inl on ↦ rw (same, ← (str_iff p.slug r.slug).0 same, on) refl
    | inr off ↦ rw (same, ← (str_iff p.slug r.slug).0 same, off) (sym (append-nil _))
  ]
  | inr other ↦ elim (Bool-cases (before (codes r.slug) (codes p.slug))) [
    | inl first ↦ elim (Bool-cases (r.slug == slug)) [
      | inl on ↦
          let none_yet = domains_of-Above slug (p ∷ ps) (Above-first r slug p ps on first above) in
          rw (other, first, on) (rw none_yet refl)
      | inr off ↦ rw (other, first, off) (sym (append-nil _))
    ]
    | inr later ↦ elim (Bool-cases (p.slug == slug)) [
      | inl on ↦ rw (other, later, on, apart p.slug r.slug slug other on) (sym (append-nil _))
      | inr off ↦ rw (other, later, off) (domains_of-add_row slug r ps h)
    ]
  ]
]

one-select :
    (slug : String) (r : SettingsRow) (rs : List SettingsRow)
    → map (λ (x : SettingsRow). x.fqdn) (select (λ (x : SettingsRow). x.slug == slug) (r ∷ rs))
      ≡ one_if (r.slug == slug) r.fqdn
        ++ map (λ (x : SettingsRow). x.fqdn) (select (λ (x : SettingsRow). x.slug == slug) rs)
unfolding select
one-select slug r rs = elim (Bool-cases (r.slug == slug)) [
  | inl on ↦ rw on refl
  | inr off ↦ rw off refl
]

group_from-domains :
    (slug : String) (rows : List SettingsRow) (ps : List TenantPolicy)
    → Increasing ps
    → domains_of slug (group_from ps rows)
      ≡ domains_of slug ps
        ++ map (λ (x : SettingsRow). x.fqdn) (select (λ (x : SettingsRow). x.slug == slug) rows)
unfolding group_from select
group_from-domains slug [] ps h = sym (append-nil _)
group_from-domains slug (r ∷ rs) ps h =
    group_from-domains slug rs (add_row r ps) (Increasing-add_row r ps h)
    ∙ (ap
          (λ l.
            l
            ++ map (λ (x : SettingsRow). x.fqdn) (select (λ (x : SettingsRow). x.slug == slug) rs))
          (domains_of-add_row slug r ps h)
        ∙ (append_assoc (domains_of slug ps) _ _
            ∙ ap (λ l. domains_of slug ps ++ l) (sym (one-select slug r rs))))

group_from-Increasing :
    (rows : List SettingsRow) (ps : List TenantPolicy)
    → Increasing ps
    → Increasing (group_from ps rows)
unfolding group_from
group_from-Increasing [] ps h = h
group_from-Increasing (r ∷ rs) ps h =
    group_from-Increasing rs (add_row r ps) (Increasing-add_row r ps h)

-- The grouping has each slug once, in the order of the map, and gives every slug exactly the domains
-- of its rows, in the order of the rows.
pub group-domains :
    (rows : List SettingsRow)
    → Increasing (group rows)
      × ((slug : String)
          → domains_of slug (group rows)
            ≡ map (λ (x : SettingsRow). x.fqdn) (select (λ (x : SettingsRow). x.slug == slug) rows))
unfolding group
group-domains rows = (group_from-Increasing rows [] tt, λ slug. group_from-domains slug rows [] tt)

domain_count-add_row :
    (r : SettingsRow) (ps : List TenantPolicy) → domain_count (add_row r ps) ≡ suc (domain_count ps)
unfolding add_row domain_count
domain_count-add_row r [] = omega arith
domain_count-add_row r (p ∷ ps) = elim (Bool-cases (p.slug == r.slug)) [
  | inl same ↦ rw same (omega (arith, length-append p.domains (r.fqdn ∷ [])))
  | inr other ↦ elim (Bool-cases (before (codes r.slug) (codes p.slug))) [
    | inl first ↦ rw (other, first) (omega arith)
    | inr later ↦ rw (other, later) (omega (arith, domain_count-add_row r ps))
  ]
]

group_from-domain_count :
    (rows : List SettingsRow) (ps : List TenantPolicy)
    → domain_count (group_from ps rows) ≡ domain_count ps + length rows
unfolding group_from
group_from-domain_count [] ps = omega arith
group_from-domain_count (r ∷ rs) ps =
    omega (arith, group_from-domain_count rs (add_row r ps), domain_count-add_row r ps)

-- The number of domains that the audit entry of a cycle states is the number of the query's rows.
pub domain_count-group : (rows : List SettingsRow) → domain_count (group rows) ≡ length rows
unfolding group domain_count
domain_count-group rows = omega (arith, group_from-domain_count rows [])
