-- ===== src/Admin/Invariant.antt =====
-- Every request keeps the tables well formed, whoever sends it and whatever the connection does.
use opengroupware.Prelude.{
  is_finite, true, ◌≡◌, ◌∙◌, refl, inl, inr, List, [], ◌∷◌, Option, Result, ok, err, arith,
}
use opengroupware.Db.Errors.{ApiError, db}
use opengroupware.Db.World.{Uuid, Time, World, continue}
use opengroupware.Db.Transaction.{Stmt, Scope, tenant, platform, session, transact, exec}
use opengroupware.Db.Audit.{AuditEntry}
use opengroupware.Db.Commits.{Commits-keeps, statement-Commits}
use opengroupware.Auth.Caller.{Caller}
use opengroupware.Admin.Models.{Account, CreateAccount, AbusePolicy, SetAbusePolicy}
use opengroupware.Admin.Validate.{validate_policy}
use opengroupware.Admin.Backstop.{validate_policy_iff}
use opengroupware.Admin.Tables.{
  Control, select_tenants, select_domains, select_accounts, select_policy,
}
use opengroupware.Admin.Routes.{
  AppState, list_tenants, list_domains, list_accounts, get_policy, or_defaults,
}
use opengroupware.Admin.Api.{
  Request, post_tenants, get_tenants, post_domains, get_domains, post_accounts, get_accounts,
  get_abuse_policy, put_abuse_policy, router, serve,
}
use opengroupware.Admin.Effects.{
  audited, TenantCreated, create_tenant-Commits, DomainCreated, create_domain-Commits, PolicySet,
  put_policy-Commits,
}
use opengroupware.Admin.Accounts.{
  AccountCreated, ProvisionEffect, AccountEffect, create_account-AccountEffect,
}
use opengroupware.Admin.WellFormed.{
  WellFormed, WellFormed-NewTenant, WellFormed-NewDomain, WellFormed-NewAccount,
  WellFormed-Activated, WellFormed-SetPolicy,
}

pub WellFormed-audited :
    (now : Time) (e : AuditEntry) (s : Control) → WellFormed s → WellFormed (audited now e s)
WellFormed-audited now e s h = record {
  tenants_ok = h.tenants_ok;
  slugs = h.slugs;
  domains_ok = h.domains_ok;
  fqdns = h.fqdns;
  accounts_ok = h.accounts_ok;
  emails = h.emails;
  policies_ok = h.policies_ok;
  policies_one = h.policies_one;
}

-- A reading statement leaves the tables alone.
finite :
    (req : SetAbusePolicy)
    → validate_policy req ≡ ok tt
    → (is_finite req.reject ≡ true)
      × (is_finite req.add_header ≡ true)
      × (is_finite req.greylist ≡ true)
finite req valid =
    let (reject, add_header, greylist, _) = (validate_policy_iff req).0 valid in
    (reject, add_header, greylist)

module _ {A : Type 0} (st : AppState) (scope : Scope) (q : Stmt Control A) where
  pub reads-unchanged :
      (reads : (now : Time) (id : Uuid) (a : A) (s s' : Control)
        → q (session st.db scope now) id s ≡ ok (a, s')
        → s' ≡ s)
      (w : World Control)
      → (transact {E = ApiError} db st.db scope (exec db q) w).1.tables ≡ w.tables
  reads-unchanged reads w =
      Commits-keeps (λ _ s'. s' ≡ w.tables) (λ s'. s' ≡ w.tables) w.tables _ (λ _ _ e. e) refl
        (statement-Commits (λ _ s'. s' ≡ w.tables) db st.db scope q w
          λ now id a s ran. reads now id a w.tables s ran)

pub list_tenants-unchanged :
    (st : AppState) (w : World Control) → (list_tenants st w).1.tables ≡ w.tables
unfolding list_tenants select_tenants
list_tenants-unchanged st w =
    reads-unchanged st platform select_tenants (λ now id a s s' ran. ground arith) w

pub list_domains-unchanged :
    (st : AppState) (t : Uuid) (w : World Control) → (list_domains st t w).1.tables ≡ w.tables
unfolding list_domains select_domains
list_domains-unchanged st t w =
    reads-unchanged st (tenant t) select_domains (λ now id a s s' ran. ground arith) w

pub list_accounts-unchanged :
    (st : AppState) (t : Uuid) (w : World Control) → (list_accounts st t w).1.tables ≡ w.tables
unfolding list_accounts select_accounts
list_accounts-unchanged st t w =
    reads-unchanged st (tenant t) select_accounts (λ now id a s s' ran. ground arith) w

or_defaults-tables :
    (t : Uuid) (r : Result ApiError (Option AbusePolicy) × World Control)
    → (continue r (or_defaults t)).1.tables ≡ r.1.tables
or_defaults-tables t (ok p, w) = ground arith
or_defaults-tables t (err e, w) = refl

pub get_policy-unchanged :
    (st : AppState) (t : Uuid) (w : World Control) → (get_policy st t w).1.tables ≡ w.tables
unfolding get_policy select_policy
get_policy-unchanged st t w =
    or_defaults-tables t (transact db st.db (tenant t) (exec db (select_policy t)) w)
    ∙ reads-unchanged st (tenant t) (select_policy t) (λ now id a s s' ran. ground arith) w

module _ (st : AppState) (caller : Caller) where
  pub WellFormed-created :
      (t : Uuid) (req : CreateAccount) (s : Control) (a : Account) (s' : Control)
      → AccountCreated st t caller req s a s'
      → WellFormed s
      → WellFormed s'
  WellFormed-created t req s a s' c h =
      rw c.tables_eq (WellFormed-audited _ _ _ (WellFormed-NewAccount c.row h))

  pub WellFormed-provisioned :
      {Given : Uuid → Type 0} (t : Uuid) (c : Account) (s : Control) (a : Account) (s' : Control)
      → ProvisionEffect st t caller Given c s a s'
      → WellFormed s
      → WellFormed s'
  WellFormed-provisioned t c s a s' (inl (_, same)) h = rw same h
  WellFormed-provisioned t c s a s' (inr (uid, updated, _, p, _)) h =
      rw p.tables_eq (WellFormed-audited _ _ _ (WellFormed-Activated p.row h))

  WellFormed-account :
      (t : Uuid) (req : CreateAccount) (s : Control) (r : Result ApiError Account × World Control)
      → AccountEffect st t caller req s r
      → WellFormed s
      → WellFormed r.1.tables
  WellFormed-account t req s (ok a, w) (c, between, created, n, rest) h =
      WellFormed-provisioned t c between a w.tables rest
        (WellFormed-created t req s c between created h)
  WellFormed-account t req s (err e, w) (inl same) h = rw same h
  WellFormed-account t req s (err e, w) (inr (c, created)) h =
      WellFormed-created t req s c w.tables created h

  pub router-WellFormed :
      (req : Request) (w : World Control)
      → WellFormed w.tables
      → WellFormed (router st caller req w).tables
  unfolding router
  router-WellFormed (post_tenants req) w h =
      Commits-keeps (TenantCreated st caller req w.tables) WellFormed w.tables _
        (λ t s' q. rw q.tables_eq (WellFormed-audited _ _ _ (WellFormed-NewTenant q.row h))) h
        (create_tenant-Commits st caller req w)
  router-WellFormed get_tenants w h = rw (list_tenants-unchanged st w) h
  router-WellFormed (post_domains t req) w h =
      Commits-keeps (DomainCreated st t caller req w.tables) WellFormed w.tables _
        (λ d s' q. rw q.tables_eq (WellFormed-audited _ _ _ (WellFormed-NewDomain q.row h))) h
        (create_domain-Commits st t caller req w)
  router-WellFormed (get_domains t) w h = rw (list_domains-unchanged st t w) h
  router-WellFormed (post_accounts t req) w h =
      WellFormed-account t req w.tables _ (create_account-AccountEffect st t caller req w) h
  router-WellFormed (get_accounts t) w h = rw (list_accounts-unchanged st t w) h
  router-WellFormed (get_abuse_policy t) w h = rw (get_policy-unchanged st t w) h
  router-WellFormed (put_abuse_policy t req) w h =
      Commits-keeps (PolicySet st t caller req w.tables) WellFormed w.tables _
        (λ p s' q.
          rw q.tables_eq
            (WellFormed-audited _ _ _ (WellFormed-SetPolicy q.row (finite req q.valid) h)))
        h (put_policy-Commits st t caller req w)

-- From well-formed tables, any requests by any callers, over a connection that fails at any point,
-- leave well-formed tables.
pub serve-WellFormed :
    (st : AppState) (requests : List (Caller × Request)) (w : World Control)
    → WellFormed w.tables
    → WellFormed (serve st requests w).tables
unfolding serve
serve-WellFormed st [] w h = h
serve-WellFormed st ((caller, req) ∷ rest) w h =
    serve-WellFormed st rest (router st caller req w) (router-WellFormed st caller req w h)
