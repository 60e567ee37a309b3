-- ===== src/Admin/Isolation/Requests.antt =====
-- Isolation for whole requests and for sequences of them.
use opengroupware.Prelude.{
  ◌≡◌, ◌≢◌, inl, inr, true, false, ◌||◌, List, [], ◌∷◌, Result, ok, err, ◌==◌, nat_eq, arith, any,
  any-weaken, select, select-none, All, Bool-cases, string_eq, String,
}
use opengroupware.Db.Errors.{ApiError}
use opengroupware.Db.World.{Uuid, World}
use opengroupware.Db.Commits.{Commits-keeps}
use opengroupware.Auth.Caller.{Caller}
use opengroupware.Admin.Models.{Tenant, Account, CreateAccount}
use opengroupware.Admin.Tables.{Control}
use opengroupware.Admin.Routes.{AppState}
use opengroupware.Admin.Api.{
  Request, post_tenants, get_tenants, post_domains, get_domains, post_accounts, get_accounts,
  get_abuse_policy, put_abuse_policy, router, serve,
}
use opengroupware.Admin.Effects.{
  TenantCreated, create_tenant-Commits, DomainCreated, create_domain-Commits, PolicySet,
  put_policy-Commits,
}
use opengroupware.Admin.Accounts.{
  AccountCreated, ProvisionEffect, AccountEffect, create_account-AccountEffect,
}
use opengroupware.Admin.Invariant.{
  list_tenants-unchanged, list_domains-unchanged, list_accounts-unchanged, get_policy-unchanged,
}
use opengroupware.Admin.Isolation.{
  SameFor, SameFor-refl, SameFor-of-eq, SameFor-trans, SameFor-audited, SameFor-NewTenant,
  SameFor-NewDomain, SameFor-NewAccount, SameFor-Activated, SameFor-SetPolicy, other,
}

-- The request names another tenant, or none.
abbrev pub IsForeign : Uuid → Request → Type 0
IsForeign u (post_tenants req) = Unit
IsForeign u get_tenants = Unit
IsForeign u (post_domains t req) = u ≢ t
IsForeign u (get_domains t) = u ≢ t
IsForeign u (post_accounts t req) = u ≢ t
IsForeign u (get_accounts t) = u ≢ t
IsForeign u (get_abuse_policy t) = u ≢ t
IsForeign u (put_abuse_policy t req) = u ≢ t

-- The tenant has a row.
abbrev pub IsTenant : Uuid → Control → Type 0
IsTenant u s = select (λ (r : Tenant). r.id == u) s.tenants ≢ []

module _ (st : AppState) (caller : Caller) (u : Uuid) (on : st.db.rls ≡ true) where
  fresh_is_other :
      (s : Control) (t : Tenant) (slug : String)
      → any (λ (r : Tenant). r.id == t.id || r.slug == slug) s.tenants ≡ false
      → IsTenant u s
      → (t.id == u) ≡ false
  fresh_is_other s t slug unused known = elim (Bool-cases (t.id == u)) [
    | inl same ↦ absurd (
        known (
          select-none (λ (r : Tenant). r.id == u) s.tenants
            (any-weaken _ _ s.tenants (λ r no. ground (arith, no, same)) unused)))
    | inr different ↦ different
  ]

  SameFor-created :
      (t : Uuid) (req : CreateAccount) (s : Control) (a : Account) (s' : Control)
      → u ≢ t
      → AccountCreated st t caller req s a s'
      → SameFor u s s'
  SameFor-created t req s a s' h c =
      rw c.tables_eq
        (SameFor-trans (SameFor-NewAccount c.row h) (SameFor-audited _ _ _ (other t u h)))

  SameFor-provisioned :
      {Given : Uuid → Type 0} (t : Uuid) (c : Account) (s : Control) (a : Account) (s' : Control)
      → u ≢ t
      → ProvisionEffect st t caller Given c s a s'
      → SameFor u s s'
  SameFor-provisioned t c s a s' h (inl (_, same)) = SameFor-of-eq u s s' same
  SameFor-provisioned t c s a s' h (inr (uid, updated, _, p, _)) = rw p.tables_eq (
      SameFor-trans (SameFor-Activated st t p.now p.row on h) (SameFor-audited _ _ _ (other t u h)))

  SameFor-account :
      (t : Uuid) (req : CreateAccount) (s : Control) (r : Result ApiError Account × World Control)
      → u ≢ t
      → AccountEffect st t caller req s r
      → SameFor u s r.1.tables
  SameFor-account t req s (ok a, w) h (c, between, created, n, rest) =
      SameFor-trans (SameFor-created t req s c between h created)
        (SameFor-provisioned t c between a w.tables h rest)
  SameFor-account t req s (err e, w) h (inl same) = SameFor-of-eq u s w.tables same
  SameFor-account t req s (err e, w) h (inr (c, created)) =
      SameFor-created t req s c w.tables h created

  router-SameFor :
      (req : Request) (w : World Control)
      → IsForeign u req
      → IsTenant u w.tables
      → SameFor u w.tables (router st caller req w).tables
  unfolding router
  router-SameFor (post_tenants req) w h known =
      Commits-keeps (TenantCreated st caller req w.tables) (SameFor u w.tables) w.tables _
        (λ t s' q.
          let different = fresh_is_other w.tables t req.slug q.row.unused known in
          rw q.tables_eq
            (SameFor-trans (SameFor-NewTenant q.row different) (SameFor-audited _ _ _ different)))
        (SameFor-refl u w.tables) (create_tenant-Commits st caller req w)
  router-SameFor get_tenants w h known = SameFor-of-eq u _ _ (list_tenants-unchanged st w)
  router-SameFor (post_domains t req) w h known =
      Commits-keeps (DomainCreated st t caller req w.tables) (SameFor u w.tables) w.tables _
        (λ d s' q.
          rw q.tables_eq
            (SameFor-trans (SameFor-NewDomain q.row h) (SameFor-audited _ _ _ (other t u h))))
        (SameFor-refl u w.tables) (create_domain-Commits st t caller req w)
  router-SameFor (get_domains t) w h known = SameFor-of-eq u _ _ (list_domains-unchanged st t w)
  router-SameFor (post_accounts t req) w h known =
      SameFor-account t req w.tables _ h (create_account-AccountEffect st t caller req w)
  router-SameFor (get_accounts t) w h known = SameFor-of-eq u _ _ (list_accounts-unchanged st t w)
  router-SameFor (get_abuse_policy t) w h known = SameFor-of-eq u _ _ (get_policy-unchanged st t w)
  router-SameFor (put_abuse_policy t req) w h known =
      Commits-keeps (PolicySet st t caller req w.tables) (SameFor u w.tables) w.tables _
        (λ p s' q.
          rw q.tables_eq
            (SameFor-trans (SameFor-SetPolicy q.row h) (SameFor-audited _ _ _ (other t u h))))
        (SameFor-refl u w.tables) (put_policy-Commits st t caller req w)

-- Policies apply to the role. Then no sequence of requests about other tenants changes a tenant's
-- row, domains, accounts, abuse policy or audit trail.
pub serve-SameFor :
    (st : AppState) (requests : List (Caller × Request)) (u : Uuid) (w : World Control)
    → st.db.rls ≡ true
    → All (λ (r : Caller × Request). IsForeign u r.1) requests
    → IsTenant u w.tables
    → SameFor u w.tables (serve st requests w).tables
unfolding serve
serve-SameFor st [] u w on h known = SameFor-refl u w.tables
serve-SameFor st ((caller, req) ∷ rest) u w on (foreign, h) known =
    let first = router-SameFor st caller u on req w foreign known in
    SameFor-trans first
      (serve-SameFor st rest u (router st caller req w) on h (rw (← first.tenants) at known))
