-- ===== src/Admin/Isolation.antt =====
-- A statement about one tenant leaves every other tenant's rows alone.
pub mod Requests
pub mod Deployed
use opengroupware.Prelude.{
  ℕ, ◌≡◌, ◌≢◌, ◌∙◌, refl, sym, ap, inl, inr, Bool, true, false, ◌||◌, String, List, [], ◌∷◌, ◌++◌,
  Option, none, some, Result, ok, err, ◌==◌, nat_eq, nat_beq_iff, arith, any, select, select-concat,
  select-update, update, if◌then◌else◌, Float64, ℤ,
}
use opengroupware.Db.Errors.{ApiError}
use opengroupware.Db.World.{Uuid, Time, World}
use opengroupware.Db.Session.{Session, visible}
use opengroupware.Db.Transaction.{tenant, session}
use opengroupware.Db.Audit.{AuditEntry, AuditRow}
use opengroupware.Db.Commits.{Commits-keeps}
use opengroupware.Auth.Caller.{Caller}
use opengroupware.Admin.Models.{Tenant, Domain, Account, AbusePolicy, CreateAccount}
use opengroupware.Admin.Tables.{Control, AccountRow, is_account, activated}
use opengroupware.Admin.Statements.{NewTenant, NewDomain, NewAccount, Activated, SetPolicy}
use opengroupware.Admin.Routes.{AppState}
use opengroupware.Admin.Api.{
  Request, post_tenants, get_tenants, post_domains, get_domains, post_accounts, get_accounts,
  get_abuse_policy, put_abuse_policy, router, serve,
}
use opengroupware.Admin.Effects.{
  audited, TenantCreated, create_tenant-Commits, DomainCreated, create_domain-Commits, PolicySet,
  put_policy-Commits,
}
use opengroupware.Admin.Accounts.{
  AccountCreated, ProvisionEffect, AccountEffect, create_account-AccountEffect,
}
use opengroupware.Db.Visible.{visible-mine}
use opengroupware.Admin.Invariant.{
  list_tenants-unchanged, list_domains-unchanged, list_accounts-unchanged, get_policy-unchanged,
}

abbrev pub is_about : Uuid → Option Uuid → Bool
is_about u none = false
is_about u (some t) = t == u

-- All that the tables hold of a tenant is as it was.
pub record SameFor (u : Uuid) (s s' : Control) : Type 0 where
  pub tenants :
      select (λ (r : Tenant). r.id == u) s'.tenants ≡ select (λ (r : Tenant). r.id == u) s.tenants
  pub domains :
      select (λ (r : Domain). r.tenant_id == u) s'.domains
      ≡ select (λ (r : Domain). r.tenant_id == u) s.domains
  pub accounts :
      select (λ (r : AccountRow). r.account.tenant_id == u) s'.accounts
      ≡ select (λ (r : AccountRow). r.account.tenant_id == u) s.accounts
  pub policies :
      select (λ (r : AbusePolicy). r.tenant_id == u) s'.abuse_policy
      ≡ select (λ (r : AbusePolicy). r.tenant_id == u) s.abuse_policy
  pub trail :
      select (λ (r : AuditRow). is_about u r.entry.tenant_id) s'.audit_log
      ≡ select (λ (r : AuditRow). is_about u r.entry.tenant_id) s.audit_log

pub SameFor-refl : (u : Uuid) (s : Control) → SameFor u s s
SameFor-refl u s = record {
  tenants = refl;
  domains = refl;
  accounts = refl;
  policies = refl;
  trail = refl;
}

pub SameFor-of-eq : (u : Uuid) (s s' : Control) → s' ≡ s → SameFor u s s'
SameFor-of-eq u s s' e = rw e (SameFor-refl u s)

pub SameFor-trans : {u : Uuid} {r s t : Control} → SameFor u r s → SameFor u s t → SameFor u r t
SameFor-trans h k = record {
  tenants = k.tenants ∙ h.tenants;
  domains = k.domains ∙ h.domains;
  accounts = k.accounts ∙ h.accounts;
  policies = k.policies ∙ h.policies;
  trail = k.trail ∙ h.trail;
}

pub other : (t u : Uuid) → u ≢ t → (t == u) ≡ false
other t u h = ground arith

module _ {u : Uuid} where
  pub SameFor-audited :
      (now : Time) (e : AuditEntry) (s : Control)
      → is_about u e.tenant_id ≡ false
      → SameFor u s (audited now e s)
  SameFor-audited now e s h = record {
    tenants = refl;
    domains = refl;
    accounts = refl;
    policies = refl;
    trail = select-concat (λ (r : AuditRow). is_about u r.entry.tenant_id) s.audit_log _ h;
  }

  pub SameFor-NewTenant :
      {slug name plan : String} {se : Session} {s : Control} {t : Tenant} {s' : Control}
      → NewTenant slug name plan se s t s'
      → (t.id == u) ≡ false
      → SameFor u s s'
  SameFor-NewTenant {s} {t} n h = rw n.tables_eq (record {
    tenants = select-concat (λ (r : Tenant). r.id == u) s.tenants t h;
    domains = refl;
    accounts = refl;
    policies = refl;
    trail = refl;
  })

  pub SameFor-NewDomain :
      {t : Uuid} {fqdn : String} {se : Session} {s : Control} {d : Domain} {s' : Control}
      → NewDomain t fqdn se s d s'
      → u ≢ t
      → SameFor u s s'
  SameFor-NewDomain {t} {s} {d} n h = rw n.tables_eq (record {
    tenants = refl;
    domains =
        select-concat (λ (r : Domain). r.tenant_id == u) s.domains d (rw n.tenant_eq (other t u h));
    accounts = refl;
    policies = refl;
    trail = refl;
  })

  pub SameFor-NewAccount :
      {t domain_id : Uuid} {email display_name : String} {quota_mb : ℤ} {se : Session} {s : Control}
      {a : Account} {s' : Control}
      → NewAccount t domain_id email display_name quota_mb se s a s'
      → u ≢ t
      → SameFor u s s'
  SameFor-NewAccount {t} {s} {a} n h = rw n.tables_eq (record {
    tenants = refl;
    domains = refl;
    accounts =
        select-concat (λ (r : AccountRow). r.account.tenant_id == u) s.accounts _
          (rw n.tenant_eq (other t u h));
    policies = refl;
    trail = refl;
  })

  pub SameFor-Activated :
      (st : AppState) (t : Uuid) (now : Time) {id uid : Uuid} {s : Control} {a : Account}
      {s' : Control}
      → Activated id uid (session st.db (tenant t) now) s a s'
      → st.db.rls ≡ true
      → u ≢ t
      → SameFor u s s'
  SameFor-Activated st t now {id} {uid} {s} n on h =
      let se = session st.db (tenant t) now in
      let foreign = λ (r : AccountRow) (q : is_account se id r ≡ true).
        visible-mine st.db t now r.account.tenant_id on (ground arith) in
      rw n.tables_eq (record {
        tenants = refl;
        domains = refl;
        accounts =
            select-update (λ (r : AccountRow). r.account.tenant_id == u) (is_account se id)
              (activated uid now) s.accounts (λ r q. rw (foreign r q) (other t u h))
              (λ r q. rw (foreign r q) (other t u h));
        policies = refl;
        trail = refl;
      })

  pub SameFor-SetPolicy :
      {t : Uuid} {reject add_header greylist : Float64} {se : Session} {s : Control}
      {p : AbusePolicy} {s' : Control}
      → SetPolicy t reject add_header greylist se s p s'
      → u ≢ t
      → SameFor u s s'
  SameFor-SetPolicy {t} {s} {p} n h =
      let mine : (p.tenant_id == u) ≡ false = rw n.policy_eq (other t u h) in
      let replaced =
        select-update (λ (r : AbusePolicy). r.tenant_id == u)
          (λ (r : AbusePolicy). r.tenant_id == t) (λ _. p) s.abuse_policy
          (λ r q. rw ((nat_beq_iff _ _).0 q) (other t u h)) (λ r q. mine) in
      let added = select-concat (λ (r : AbusePolicy). r.tenant_id == u) s.abuse_policy p mine in
      rw n.tables_eq (record {
        tenants = refl;
        domains = refl;
        accounts = refl;
        policies = ground (arith, replaced, added);
        trail = refl;
      })
