-- ===== src/Admin/Statements.antt =====
-- What a statement of Admin/Tables has done when it succeeds.
use opengroupware.Prelude.{
  String, ◌≡◌, refl, ◌↔◌, nat_beq_iff, find?-test, true, false, Option, none, some, List, [], ◌∷◌,
  ◌++◌, ok, ℤ, Float64, ◌==◌, nat_eq, string_eq, arith, any, find?, select, order_by, map, update,
  ◌||◌, Option-cases, inl, inr, if◌then◌else◌,
}
use opengroupware.Prelude.Texts.{codes}
use opengroupware.Prelude.Changes.{ChangedAt, update-ChangedAt}
use opengroupware.Db.World.{Uuid}
use opengroupware.Db.Session.{Session, visible}
use opengroupware.Admin.Models.{Tenant, Domain, Account, AbusePolicy}
use opengroupware.Admin.Checks.{slug_check, fqdn_check, quota_check, policy_check}
use opengroupware.Admin.Tables.{
  Control, AccountRow, insert_tenant, insert_domain, insert_account, is_account, activated,
  update_account, upsert_policy, is_open_domain, select_fqdn, select_domains, select_accounts,
  select_policy, is_policy_of,
}

-- A new tenant: what was asked for, unused, and put at the end of the table.
pub record NewTenant (slug name plan : String) (se : Session) (s : Control) (t : Tenant)
    (s' : Control) : Type 0 where
  pub slug_eq : t.slug ≡ slug
  pub name_eq : t.name ≡ name
  pub plan_eq : t.plan ≡ plan
  pub status_eq : t.status ≡ "active"
  pub created_eq : t.created_at ≡ se.started
  pub checked : slug_check (codes slug) ≡ true
  pub unused : any (λ (r : Tenant). r.id == t.id || r.slug == slug) s.tenants ≡ false
  pub tables_eq : s' ≡ record s { tenants = s.tenants ++ t ∷ [] }

pub insert_tenant-NewTenant :
    (slug name plan : String) (se : Session) (id : Uuid) (s : Control) (t : Tenant) (s' : Control)
    → insert_tenant slug name plan se id s ≡ ok (t, s')
    → NewTenant slug name plan se s t s'
unfolding insert_tenant
insert_tenant-NewTenant slug name plan se id s t s' h = ground arith

pub record NewDomain (tenant_id : Uuid) (fqdn : String) (se : Session) (s : Control) (d : Domain)
    (s' : Control) : Type 0 where
  pub tenant_eq : d.tenant_id ≡ tenant_id
  pub fqdn_eq : d.fqdn ≡ fqdn
  pub status_eq : d.status ≡ "pending_dns"
  pub created_eq : d.created_at ≡ se.started
  pub checked : fqdn_check (codes fqdn) ≡ true
  pub unused : any (λ (r : Domain). r.id == d.id || r.fqdn == fqdn) s.domains ≡ false
  pub owned : any (λ (r : Tenant). r.id == tenant_id) s.tenants ≡ true
  pub tables_eq : s' ≡ record s { domains = s.domains ++ d ∷ [] }

pub insert_domain-NewDomain :
    (tenant_id : Uuid) (fqdn : String) (se : Session) (id : Uuid) (s : Control) (d : Domain)
    (s' : Control)
    → insert_domain tenant_id fqdn se id s ≡ ok (d, s')
    → NewDomain tenant_id fqdn se s d s'
unfolding insert_domain
insert_domain-NewDomain tenant_id fqdn se id s d s' h = ground arith

pub record NewAccount (tenant_id domain_id : Uuid) (email display_name : String) (quota_mb : ℤ)
    (se : Session) (s : Control) (a : Account) (s' : Control) : Type 0 where
  pub tenant_eq : a.tenant_id ≡ tenant_id
  pub domain_eq : a.domain_id ≡ domain_id
  pub email_eq : a.email ≡ email
  pub display_name_eq : a.display_name ≡ display_name
  pub quota_eq : a.quota_mb ≡ quota_mb
  pub status_eq : a.status ≡ "pending_provisioning"
  pub created_eq : a.created_at ≡ se.started
  pub checked : quota_check quota_mb ≡ true
  pub unused :
      any (λ (r : AccountRow). r.account.id == a.id || r.account.email == email) s.accounts ≡ false
  pub tables_eq : s' ≡ record s {
    accounts =
        s.accounts ++ record { account = a; sesame_user_id = none; updated_at = a.created_at } ∷ [];
  }

pub insert_account-NewAccount :
    (tenant_id domain_id : Uuid) (email display_name : String) (quota_mb : ℤ) (se : Session)
    (id : Uuid) (s : Control) (a : Account) (s' : Control)
    → insert_account tenant_id domain_id email display_name quota_mb se id s ≡ ok (a, s')
    → NewAccount tenant_id domain_id email display_name quota_mb se s a s'
unfolding insert_account
insert_account-NewAccount tenant_id domain_id email display_name quota_mb se id s a s' h =
    ground arith

-- The row that an activation finds, and what it makes of the table.
pub record Activated (account_id sesame_user_id : Uuid) (se : Session) (s : Control) (a : Account)
    (s' : Control) : Type 0 where
  pub row : AccountRow
  pub found : find? (is_account se account_id) s.accounts ≡ some row
  pub hit : (visible se row.account.tenant_id ≡ true) × (row.account.id ≡ account_id)
  pub account_eq : a ≡ record row.account { status = "active" }
  pub rows :
      ChangedAt
        (λ (r : AccountRow). (visible se r.account.tenant_id ≡ true) × (r.account.id ≡ account_id))
        (λ (r : AccountRow). record r {
          account = record r.account { status = "active" };
          sesame_user_id = some sesame_user_id;
          updated_at = se.started;
        })
        s.accounts
        s'.accounts
  pub tables_eq : s' ≡ record s {
    accounts = update (is_account se account_id) (activated sesame_user_id se.started) s.accounts;
  }

is_account_iff :
    (se : Session) (account_id : Uuid) (r : AccountRow)
    → (is_account se account_id r ≡ true)
      ↔ ((visible se r.account.tenant_id ≡ true) × (r.account.id ≡ account_id))
is_account_iff se account_id r = (
  λ on. (ground (arith, on), (nat_beq_iff r.account.id account_id).0 (ground (arith, on))),
  λ (seen, same). ground (arith, seen, (nat_beq_iff r.account.id account_id).1 same),
)

account_rows :
    (account_id sesame_user_id : Uuid) (se : Session) (s s' : Control)
    → s' ≡ record s {
      accounts = update (is_account se account_id) (activated sesame_user_id se.started) s.accounts;
    }
    → ChangedAt
        (λ (r : AccountRow). (visible se r.account.tenant_id ≡ true) × (r.account.id ≡ account_id))
        (λ (r : AccountRow). record r {
          account = record r.account { status = "active" };
          sesame_user_id = some sesame_user_id;
          updated_at = se.started;
        })
        s.accounts
        s'.accounts
account_rows account_id sesame_user_id se s s' e = rw e (
    update-ChangedAt _ _ (is_account se account_id) (activated sesame_user_id se.started) s.accounts
      (is_account_iff se account_id) (λ x _. refl))

pub update_account-Activated :
    (account_id sesame_user_id : Uuid) (se : Session) (id : Uuid) (s : Control) (a : Account)
    (s' : Control)
    → update_account account_id sesame_user_id se id s ≡ ok (a, s')
    → Activated account_id sesame_user_id se s a s'
unfolding update_account
update_account-Activated account_id sesame_user_id se id s a s' h =
    elim (Option-cases (find? (is_account se account_id) s.accounts)) [
      | inl gone ↦ absurd (ground arith)
      | inr (row, found) ↦ record {
        row = row;
        found = found;
        hit =
            (is_account_iff se account_id row).0
              (find?-test (is_account se account_id) s.accounts row found);
        account_eq = ground arith;
        rows = account_rows account_id sesame_user_id se s s' (ground arith);
        tables_eq = ground arith;
      }
    ]

pub record SetPolicy (tenant_id : Uuid) (reject add_header greylist : Float64) (se : Session)
    (s : Control) (p : AbusePolicy) (s' : Control) : Type 0 where
  pub policy_eq : p ≡ record {
    tenant_id = tenant_id;
    reject = reject;
    add_header = add_header;
    greylist = greylist;
    updated_at = se.started;
  }
  pub checked : policy_check reject add_header greylist ≡ true
  pub tables_eq : s' ≡ record s {
    abuse_policy =
        if any (λ (r : AbusePolicy). r.tenant_id == tenant_id) s.abuse_policy
        then update (λ (r : AbusePolicy). r.tenant_id == tenant_id) (λ _. p) s.abuse_policy
        else s.abuse_policy ++ p ∷ [];
  }

pub upsert_policy-SetPolicy :
    (tenant_id : Uuid) (reject add_header greylist : Float64) (se : Session) (id : Uuid)
    (s : Control) (p : AbusePolicy) (s' : Control)
    → upsert_policy tenant_id reject add_header greylist se id s ≡ ok (p, s')
    → SetPolicy tenant_id reject add_header greylist se s p s'
unfolding upsert_policy
upsert_policy-SetPolicy tenant_id reject add_header greylist se id s p s' h = ground arith

-- A domain that the transaction sees, with this id and name, and not suspended.
pub record OpenDomain (domain_id : Uuid) (se : Session) (s : Control) (fqdn : String) : Type 0 where
  pub row : Domain
  pub found : find? (is_open_domain se domain_id) s.domains ≡ some row
  pub fqdn_eq : row.fqdn ≡ fqdn

pub select_fqdn-OpenDomain :
    (domain_id : Uuid) (se : Session) (id : Uuid) (s : Control) (found : Option String)
    (s' : Control)
    → select_fqdn domain_id se id s ≡ ok (found, s')
    → ((fqdn : String) → found ≡ some fqdn → OpenDomain domain_id se s fqdn) × (s' ≡ s)
unfolding select_fqdn
select_fqdn-OpenDomain domain_id se id s found s' h = (
  λ fqdn e. elim (Option-cases (find? (is_open_domain se domain_id) s.domains)) [
    | inl gone ↦ absurd (ground arith)
    | inr (row, at_row) ↦ record { row = row; found = at_row; fqdn_eq = ground arith }
  ],
  ground arith,
)

pub select_domains_lem :
    (se : Session) (id : Uuid) (s : Control) (ds : List Domain) (s' : Control)
    → select_domains se id s ≡ ok (ds, s')
    → (ds
        ≡ order_by
            (λ (d : Domain). d.created_at)
            (select (λ (d : Domain). visible se d.tenant_id) s.domains))
      × (s' ≡ s)
unfolding select_domains
select_domains_lem se id s ds s' h = ground arith

pub select_accounts_lem :
    (se : Session) (id : Uuid) (s : Control) (l : List Account) (s' : Control)
    → select_accounts se id s ≡ ok (l, s')
    → (l
        ≡ order_by
            (λ (a : Account). a.created_at)
            (map
              (λ (r : AccountRow). r.account)
              (select (λ (r : AccountRow). visible se r.account.tenant_id) s.accounts)))
      × (s' ≡ s)
unfolding select_accounts
select_accounts_lem se id s l s' h = ground arith

pub select_policy_lem :
    (t : Uuid) (se : Session) (id : Uuid) (s : Control) (p : Option AbusePolicy) (s' : Control)
    → select_policy t se id s ≡ ok (p, s')
    → (p ≡ find? (is_policy_of se t) s.abuse_policy) × (s' ≡ s)
unfolding select_policy
select_policy_lem t se id s p s' h = ground arith
