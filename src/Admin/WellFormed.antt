-- ===== src/Admin/WellFormed.antt =====
-- What holds of the control plane's tables at all times, and that every handler keeps it.
use opengroupware.Prelude.{
  is_finite, ◌≡◌, refl, sym, ap, nat_beq_iff, ◌≢◌, ◌⊎◌, inl, inr, Bool, true, false, String, none,
  List, [], ◌∷◌, ◌++◌, ◌==◌, nat_eq, string_eq, arith, any, ℤ, Float64, All, All-concat, All-update,
  Distinct, Distinct-concat, Distinct-update, any-weaken, update, if◌then◌else◌,
}
use opengroupware.Prelude.Texts.{codes}
use opengroupware.Db.World.{Uuid, Time}
use opengroupware.Db.Session.{Session}
use opengroupware.Admin.Models.{Tenant, Domain, Account, AbusePolicy}
use opengroupware.Admin.Checks.{slug_check, fqdn_check, quota_check, policy_check}
use opengroupware.Admin.Tables.{AccountRow, Control, is_account, activated}
use opengroupware.Admin.Statements.{NewTenant, NewDomain, NewAccount, Activated, SetPolicy}

abbrev pub TenantOk : Tenant → Type 0
TenantOk t = slug_check (codes t.slug) ≡ true

abbrev pub DomainOk : Domain → Type 0
DomainOk d = fqdn_check (codes d.fqdn) ≡ true

-- An account waits for its identity, or has one.
abbrev pub AccountOk : AccountRow → Type 0
AccountOk r =
    (quota_check r.account.quota_mb ≡ true)
    × ((r.account.status ≡ "pending_provisioning")
        ⊎ ((r.account.status ≡ "active") × (r.sesame_user_id ≢ none)))

-- Thresholds that the constraint of the table admits, and finite ones, which it does not ask for.
abbrev pub PolicyOk : AbusePolicy → Type 0
PolicyOk p =
    (policy_check p.reject p.add_header p.greylist ≡ true)
    × (is_finite p.reject ≡ true)
    × (is_finite p.add_header ≡ true)
    × (is_finite p.greylist ≡ true)

pub record WellFormed (s : Control) : Type 0 where
  pub tenants_ok : All TenantOk s.tenants
  pub slugs : Distinct (λ (t : Tenant). t.slug) s.tenants
  pub domains_ok : All DomainOk s.domains
  pub fqdns : Distinct (λ (d : Domain). d.fqdn) s.domains
  pub accounts_ok : All AccountOk s.accounts
  pub emails : Distinct (λ (r : AccountRow). r.account.email) s.accounts
  pub policies_ok : All PolicyOk s.abuse_policy
  pub policies_one : Distinct (λ (p : AbusePolicy). p.tenant_id) s.abuse_policy

pub WellFormed-NewTenant :
    {slug name plan : String} {se : Session} {s : Control} {t : Tenant} {s' : Control}
    → NewTenant slug name plan se s t s'
    → WellFormed s
    → WellFormed s'
WellFormed-NewTenant {s} {t} n h = rw n.tables_eq (record {
  tenants_ok = All-concat TenantOk s.tenants t h.tenants_ok (rw n.slug_eq n.checked);
  slugs =
      Distinct-concat (λ (r : Tenant). r.slug) s.tenants t
        (any-weaken _ _ s.tenants (λ r no. rw n.slug_eq (ground (arith, no))) n.unused) h.slugs;
  domains_ok = h.domains_ok;
  fqdns = h.fqdns;
  accounts_ok = h.accounts_ok;
  emails = h.emails;
  policies_ok = h.policies_ok;
  policies_one = h.policies_one;
})

pub WellFormed-NewDomain :
    {tenant_id : Uuid} {fqdn : String} {se : Session} {s : Control} {d : Domain} {s' : Control}
    → NewDomain tenant_id fqdn se s d s'
    → WellFormed s
    → WellFormed s'
WellFormed-NewDomain {s} {d} n h = rw n.tables_eq (record {
  tenants_ok = h.tenants_ok;
  slugs = h.slugs;
  domains_ok = All-concat DomainOk s.domains d h.domains_ok (rw n.fqdn_eq n.checked);
  fqdns =
      Distinct-concat (λ (r : Domain). r.fqdn) s.domains d
        (any-weaken _ _ s.domains (λ r no. rw n.fqdn_eq (ground (arith, no))) n.unused) h.fqdns;
  accounts_ok = h.accounts_ok;
  emails = h.emails;
  policies_ok = h.policies_ok;
  policies_one = h.policies_one;
})

pub WellFormed-NewAccount :
    {tenant_id domain_id : Uuid} {email display_name : String} {quota_mb : ℤ} {se : Session}
    {s : Control} {a : Account} {s' : Control}
    → NewAccount tenant_id domain_id email display_name quota_mb se s a s'
    → WellFormed s
    → WellFormed s'
WellFormed-NewAccount {s} {a} n h =
    let row : AccountRow = record {
      account = a;
      sesame_user_id = none;
      updated_at = a.created_at;
    } in
    rw n.tables_eq (record {
      tenants_ok = h.tenants_ok;
      slugs = h.slugs;
      domains_ok = h.domains_ok;
      fqdns = h.fqdns;
      accounts_ok =
          All-concat AccountOk s.accounts row h.accounts_ok
            (rw n.quota_eq n.checked, inl n.status_eq);
      emails =
          Distinct-concat (λ (r : AccountRow). r.account.email) s.accounts row
            (any-weaken _ _ s.accounts (λ r no. rw n.email_eq (ground (arith, no))) n.unused)
            h.emails;
      policies_ok = h.policies_ok;
      policies_one = h.policies_one;
    })

-- Some rows are made active.
pub WellFormed-activated :
    (p : AccountRow → Bool) (sesame_user_id : Uuid) (now : Time) (s : Control)
    → WellFormed s
    → WellFormed (record s { accounts = update p (activated sesame_user_id now) s.accounts })
WellFormed-activated p sesame_user_id now s h = record {
  tenants_ok = h.tenants_ok;
  slugs = h.slugs;
  domains_ok = h.domains_ok;
  fqdns = h.fqdns;
  accounts_ok =
      All-update AccountOk p (activated sesame_user_id now) s.accounts
        (λ r ok. (ok.0, inr (refl, cc))) h.accounts_ok;
  emails =
      Distinct-update (λ (r : AccountRow). r.account.email) p (activated sesame_user_id now)
        s.accounts (λ r _. refl) h.emails;
  policies_ok = h.policies_ok;
  policies_one = h.policies_one;
}

pub WellFormed-Activated :
    {account_id sesame_user_id : Uuid} {se : Session} {s : Control} {a : Account} {s' : Control}
    → Activated account_id sesame_user_id se s a s'
    → WellFormed s
    → WellFormed s'
WellFormed-Activated {account_id} {sesame_user_id} {se} {s} n h =
    rw n.tables_eq (WellFormed-activated (is_account se account_id) sesame_user_id se.started s h)

abbrev policy_rows : Bool → AbusePolicy → List AbusePolicy → List AbusePolicy
policy_rows found p rows =
    if found
    then update (λ (r : AbusePolicy). r.tenant_id == p.tenant_id) (λ _. p) rows
    else rows ++ p ∷ []

replaced-Distinct :
    (p : AbusePolicy) (rows : List AbusePolicy)
    → Distinct (λ (r : AbusePolicy). r.tenant_id) rows
    → Distinct
        (λ (r : AbusePolicy). r.tenant_id)
        (update (λ (r : AbusePolicy). r.tenant_id == p.tenant_id) (λ _. p) rows)
replaced-Distinct p rows d =
    Distinct-update (λ (r : AbusePolicy). r.tenant_id)
      (λ (r : AbusePolicy). r.tenant_id == p.tenant_id) (λ _. p) rows
      (λ r same. sym ((nat_beq_iff _ _).0 same)) d

-- The rows after an upsert of a policy that is well formed.
policy_rows-ok :
    (p : AbusePolicy) (rows : List AbusePolicy)
    → PolicyOk p
    → All PolicyOk rows
    → Distinct (λ (r : AbusePolicy). r.tenant_id) rows
    → (found : Bool) → any (λ (r : AbusePolicy). r.tenant_id == p.tenant_id) rows ≡ found
    → All PolicyOk (policy_rows found p rows)
      × Distinct (λ (r : AbusePolicy). r.tenant_id) (policy_rows found p rows)
policy_rows-ok p rows ok_p ok_rows one true old = (
  All-update PolicyOk (λ (r : AbusePolicy). r.tenant_id == p.tenant_id) (λ _. p) rows (λ _ _. ok_p)
      ok_rows,
  replaced-Distinct p rows one,
)
policy_rows-ok p rows ok_p ok_rows one false new = (
  All-concat PolicyOk rows p ok_rows ok_p,
  Distinct-concat (λ (r : AbusePolicy). r.tenant_id) rows p new one,
)

pub WellFormed-SetPolicy :
    {tenant_id : Uuid} {reject add_header greylist : Float64} {se : Session} {s : Control}
    {p : AbusePolicy} {s' : Control}
    → SetPolicy tenant_id reject add_header greylist se s p s'
    → (is_finite reject ≡ true) × (is_finite add_header ≡ true) × (is_finite greylist ≡ true)
    → WellFormed s
    → WellFormed s'
WellFormed-SetPolicy {tenant_id} {s} {p} n (reject_ok, add_header_ok, greylist_ok) h =
    let tenant_eq : p.tenant_id ≡ tenant_id = ap (λ (r : AbusePolicy). r.tenant_id) n.policy_eq in
    let rows =
      policy_rows-ok p s.abuse_policy
        (rw n.policy_eq (n.checked, reject_ok, add_header_ok, greylist_ok)) h.policies_ok
        h.policies_one (any (λ (r : AbusePolicy). r.tenant_id == p.tenant_id) s.abuse_policy)
        refl in
    rw (n.tables_eq, ← tenant_eq)
      (record {
        tenants_ok = h.tenants_ok;
        slugs = h.slugs;
        domains_ok = h.domains_ok;
        fqdns = h.fqdns;
        accounts_ok = h.accounts_ok;
        emails = h.emails;
        policies_ok = rows.0;
        policies_one = rows.1;
      })
