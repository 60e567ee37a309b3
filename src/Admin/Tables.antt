-- ===== src/Admin/Tables.antt =====
-- The tables of crates/admin-api/migrations/0001_control_plane.sql and 0003_abuse_policy.sql, and
-- the statements of crates/admin-api/src/routes.rs on them.
use opengroupware.Prelude.{
  String, Bool, not, ◌&&◌, ◌||◌, Option, none, some, List, [], ◌∷◌, ◌++◌, map, Result, ok, err, ℤ,
  Float64, ◌==◌, nat_eq, string_eq, any, find?, select, update, order_by, if◌then◌else◌,
}
use opengroupware.Prelude.Texts.{codes}
use opengroupware.Db.Errors.{
  SqlError, unique_violation, check_violation, foreign_key_violation, policy_violation,
  row_not_found,
}
use opengroupware.Db.World.{Uuid, Time}
use opengroupware.Db.Session.{Session, visible, platform_only}
use opengroupware.Db.Transaction.{Stmt}
use opengroupware.Db.Audit.{AuditRow, HasAudit}
use opengroupware.Admin.Models.{Tenant, Domain, Account, AbusePolicy}
use opengroupware.Admin.Checks.{slug_check, fqdn_check, quota_check, policy_check}

-- A row of `accounts`: the columns of `Account` and those that the API does not return. No
-- statement reads or writes `stalwart_principal`.
pub record AccountRow : Type 0 where
  pub account : Account
  pub sesame_user_id : Option Uuid
  pub updated_at : Time

pub record Control : Type 0 where
  pub tenants : List Tenant
  pub domains : List Domain
  pub accounts : List AccountRow
  pub abuse_policy : List AbusePolicy
  pub audit_log : List AuditRow

abbrev pub has_tenant : Control → Uuid → Bool
has_tenant t id = any (λ (r : Tenant). r.id == id) t.tenants

-- `audit_log.tenant_id REFERENCES tenants(id)`, where it is not NULL.
abbrev references_tenant : Control → Option Uuid → Result SqlError Unit
references_tenant t none = ok tt
references_tenant t (some id) = if has_tenant t id then ok tt else err foreign_key_violation

instance abbrev pub control_audit : HasAudit Control
control_audit = record {
  audit_log = λ t. t.audit_log;
  set_audit_log = λ t log. record t { audit_log = log };
  references = references_tenant;
}

-- INSERT INTO tenants (slug, name, plan) … RETURNING …
unfoldable pub insert_tenant : String → String → String → Stmt Control Tenant
insert_tenant slug name plan se id t =
    let row : Tenant = record {
      id = id;
      slug = slug;
      name = name;
      plan = plan;
      status = "active";
      created_at = se.started;
    } in
    if not (platform_only se)
    then err policy_violation
    else if not (slug_check (codes slug))
    then err check_violation
    else if any (λ (r : Tenant). r.id == id || r.slug == slug) t.tenants
    then err unique_violation
    else ok (row, record t { tenants = t.tenants ++ row ∷ [] })

-- SELECT … FROM tenants ORDER BY created_at
unfoldable pub select_tenants : Stmt Control (List Tenant)
select_tenants se id t = ok (
  order_by (λ (r : Tenant). r.created_at) (select (λ (r : Tenant). visible se r.id) t.tenants),
  t,
)

-- INSERT INTO domains (tenant_id, fqdn) … RETURNING …
unfoldable pub insert_domain : Uuid → String → Stmt Control Domain
insert_domain tenant_id fqdn se id t =
    let row : Domain = record {
      id = id;
      tenant_id = tenant_id;
      fqdn = fqdn;
      status = "pending_dns";
      created_at = se.started;
    } in
    if not (visible se tenant_id)
    then err policy_violation
    else if not (fqdn_check (codes fqdn))
    then err check_violation
    else if any (λ (r : Domain). r.id == id || r.fqdn == fqdn) t.domains
    then err unique_violation
    else if not (has_tenant t tenant_id)
    then err foreign_key_violation
    else ok (row, record t { domains = t.domains ++ row ∷ [] })

-- SELECT … FROM domains ORDER BY created_at
unfoldable pub select_domains : Stmt Control (List Domain)
select_domains se id t = ok (
  order_by (λ (r : Domain). r.created_at)
      (select (λ (r : Domain). visible se r.tenant_id) t.domains),
  t,
)

abbrev fqdn_of : Option Domain → Option String
fqdn_of none = none
fqdn_of (some d) = some d.fqdn

abbrev pub is_open_domain : Session → Uuid → Domain → Bool
is_open_domain se domain_id r =
    visible se r.tenant_id && (r.id == domain_id && not (r.status == "suspended"))

-- SELECT fqdn FROM domains WHERE id = $1 AND status <> 'suspended'
unfoldable pub select_fqdn : Uuid → Stmt Control (Option String)
select_fqdn domain_id se id t = ok (fqdn_of (find? (is_open_domain se domain_id) t.domains), t)

-- INSERT INTO accounts (tenant_id, domain_id, email, display_name, quota_mb) … RETURNING …
unfoldable pub insert_account : Uuid → Uuid → String → String → ℤ → Stmt Control Account
insert_account tenant_id domain_id email display_name quota_mb se id t =
    let account : Account = record {
      id = id;
      tenant_id = tenant_id;
      domain_id = domain_id;
      email = email;
      display_name = display_name;
      quota_mb = quota_mb;
      status = "pending_provisioning";
      created_at = se.started;
    } in
    let row : AccountRow = record {
      account = account;
      sesame_user_id = none;
      updated_at = se.started;
    } in
    if not (visible se tenant_id)
    then err policy_violation
    else if not (quota_check quota_mb)
    then err check_violation
    else if any (λ (r : AccountRow). r.account.id == id || r.account.email == email) t.accounts
    then err unique_violation
    else if not (has_tenant t tenant_id && any (λ (r : Domain). r.id == domain_id) t.domains)
    then err foreign_key_violation
    else ok (account, record t { accounts = t.accounts ++ row ∷ [] })

abbrev pub activated : Uuid → Time → AccountRow → AccountRow
activated sesame_user_id now r = record {
  account = record r.account { status = "active" };
  sesame_user_id = some sesame_user_id;
  updated_at = now;
}

abbrev pub is_account : Session → Uuid → AccountRow → Bool
is_account se id r = visible se r.account.tenant_id && r.account.id == id

abbrev updated_row :
    (AccountRow → AccountRow)
    → (AccountRow → Bool)
    → Control
    → Option AccountRow
    → Result SqlError (Account × Control)
updated_row f p t none = err row_not_found
updated_row f p t (some r) = ok ((f r).account, record t { accounts = update p f t.accounts })

-- UPDATE accounts SET status = 'active', sesame_user_id = $2, updated_at = now() WHERE id = $1
-- RETURNING …, with `fetch_one`
unfoldable pub update_account : Uuid → Uuid → Stmt Control Account
update_account account_id sesame_user_id se id t =
    updated_row (activated sesame_user_id se.started) (is_account se account_id) t
      (find? (is_account se account_id) t.accounts)

-- SELECT … FROM accounts ORDER BY created_at
unfoldable pub select_accounts : Stmt Control (List Account)
select_accounts se id t = ok (
  order_by (λ (r : Account). r.created_at)
      (map (λ (r : AccountRow). r.account)
        (select (λ (r : AccountRow). visible se r.account.tenant_id) t.accounts)),
  t,
)

abbrev pub is_policy_of : Session → Uuid → AbusePolicy → Bool
is_policy_of se tenant_id r = visible se r.tenant_id && r.tenant_id == tenant_id

-- SELECT … FROM abuse_policy WHERE tenant_id = $1
unfoldable pub select_policy : Uuid → Stmt Control (Option AbusePolicy)
select_policy tenant_id se id t = ok (find? (is_policy_of se tenant_id) t.abuse_policy, t)

-- INSERT INTO abuse_policy … ON CONFLICT (tenant_id) DO UPDATE SET … RETURNING …
unfoldable pub upsert_policy : Uuid → Float64 → Float64 → Float64 → Stmt Control AbusePolicy
upsert_policy tenant_id reject add_header greylist se id t =
    let row : AbusePolicy = record {
      tenant_id = tenant_id;
      reject = reject;
      add_header = add_header;
      greylist = greylist;
      updated_at = se.started;
    } in
    let same = λ (r : AbusePolicy). r.tenant_id == tenant_id in
    if not (visible se tenant_id)
    then err policy_violation
    else if not (policy_check reject add_header greylist)
    then err check_violation
    else if any same t.abuse_policy
    then ok (row, record t { abuse_policy = update same (λ _. row) t.abuse_policy })
    else if not (has_tenant t tenant_id)
    then err foreign_key_violation
    else ok (row, record t { abuse_policy = t.abuse_policy ++ row ∷ [] })
