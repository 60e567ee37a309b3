-- ===== src/Admin/Routes.antt =====
-- The handlers of crates/admin-api/src/routes.rs, each from its decoded request to its result. The
-- handlers that create something answer with 201.
use Prim.Native.String
use opengroupware.Prelude.{ℕ, String, Option, none, some, List, Result, ok, err, ok_or}
use opengroupware.Types.Provider.{ProviderError}
use opengroupware.Db.Errors.{SqlError, ApiError, not_found, db}
use opengroupware.Db.World.{Uuid, World, Io, next, continue}
use opengroupware.Db.Connect.{Db}
use opengroupware.Db.Transaction.{
  Tx, pure, from_result, exec, ◌>>=◌, ◌>>◌, tenant, platform, transact,
}
use opengroupware.Db.Audit.{
  Value, int, number, text, uuid, obj, end, field, of_uuid, AuditEntry, record_entry,
}
use opengroupware.Auth.Caller.{Caller, actor}
use opengroupware.Admin.Models.{
  Tenant, Domain, Account, AbusePolicy, defaults, CreateTenant, CreateDomain, CreateAccount,
  SetAbusePolicy,
}
use opengroupware.Admin.Validate.{
  validate_slug, validate_fqdn, validate_local_part, validate_policy,
}
use opengroupware.Admin.Tables.{
  Control, control_audit, insert_tenant, select_tenants, insert_domain, select_domains, select_fqdn,
  insert_account, update_account, select_accounts, select_policy, upsert_policy,
}

-- `SesameClient::provision_user`: what the identity service answers, by the number of the round
-- trip, the e-mail address and the display name.
abbrev pub Provisioner : Type 0
Provisioner = ℕ → String → String → Result ProviderError Uuid

pub record AppState : Type 0 where
  pub db : Db
  pub sesame : Option Provisioner

-- `validate(…)?` before anything else.
abbrev pub validated :
    {A : Type 0} → Result ApiError Unit → Io Control ApiError A → Io Control ApiError A
validated (ok _) m w = m w
validated (err e) m w = (err e, w)

abbrev pub entry : Option Uuid → Caller → String → String → Uuid → Value → AuditEntry
entry tenant_id caller action entity_type id payload = record {
  tenant_id = tenant_id;
  actor = actor caller;
  action = action;
  entity_type = entity_type;
  entity_id = of_uuid id;
  payload = payload;
}

abbrev pub tenant_entry : Caller → Tenant → AuditEntry
tenant_entry caller t =
    entry (some t.id) caller "tenant.create" "tenant" t.id
      (obj (field "slug" (text t.slug) (field "plan" (text t.plan) end)))

abbrev pub create_tenant_tx : Caller → CreateTenant → Tx Control ApiError Tenant
create_tenant_tx caller req = do
  t ← exec db (insert_tenant req.slug req.name req.plan)
  record_entry db (tenant_entry caller t)
  pure t

unfoldable pub create_tenant : AppState → Caller → CreateTenant → Io Control ApiError Tenant
create_tenant st caller req =
    validated (validate_slug req.slug) (transact db st.db platform (create_tenant_tx caller req))

unfoldable pub list_tenants : AppState → Io Control ApiError (List Tenant)
list_tenants st = transact db st.db platform (exec db select_tenants)

abbrev pub domain_entry : Uuid → Caller → Domain → AuditEntry
domain_entry tenant_id caller d =
    entry (some tenant_id) caller "domain.create" "domain" d.id
      (obj (field "fqdn" (text d.fqdn) end))

abbrev pub create_domain_tx : Uuid → Caller → CreateDomain → Tx Control ApiError Domain
create_domain_tx tenant_id caller req = do
  d ← exec db (insert_domain tenant_id req.fqdn)
  record_entry db (domain_entry tenant_id caller d)
  pure d

unfoldable pub create_domain : AppState → Uuid → Caller → CreateDomain → Io Control ApiError Domain
create_domain st tenant_id caller req =
    validated (validate_fqdn req.fqdn)
      (transact db st.db (tenant tenant_id) (create_domain_tx tenant_id caller req))

unfoldable pub list_domains : AppState → Uuid → Io Control ApiError (List Domain)
list_domains st tenant_id = transact db st.db (tenant tenant_id) (exec db select_domains)

-- `format!("{}@{}", req.local_part, fqdn)`
abbrev pub email_of : String → String → String
email_of local_part fqdn = String.◌++◌ local_part (String.◌++◌ "@" fqdn)

abbrev pub account_entry : Uuid → Caller → Account → AuditEntry
account_entry tenant_id caller a =
    entry (some tenant_id) caller "account.create" "account" a.id
      (obj (field "email" (text a.email) (field "quota_mb" (int a.quota_mb) end)))

abbrev pub create_account_tx : Uuid → Caller → CreateAccount → Tx Control ApiError Account
create_account_tx tenant_id caller req = do
  found ← exec db (select_fqdn req.domain_id)
  fqdn ← from_result (ok_or found not_found)
  a ← exec db (
      insert_account tenant_id req.domain_id (email_of req.local_part fqdn) req.display_name
        req.quota_mb)
  record_entry db (account_entry tenant_id caller a)
  pure a

abbrev pub provisioned_entry : Uuid → Caller → Account → Uuid → AuditEntry
provisioned_entry tenant_id caller a sesame_user_id =
    entry (some tenant_id) caller "account.provisioned" "account" a.id
      (obj (field "sesame_user_id" (uuid sesame_user_id) end))

abbrev pub activate_tx : Uuid → Caller → Account → Uuid → Tx Control SqlError Account
activate_tx tenant_id caller account sesame_user_id = do
  updated ← exec (λ e. e) (update_account account.id sesame_user_id)
  record_entry (λ e. e) (provisioned_entry tenant_id caller updated sesame_user_id)
  pure updated

-- A failure of the second transaction leaves the account as it was created.
abbrev pub or_account : Account → Result SqlError Account × World Control → Account × World Control
or_account account (ok updated, w) = (updated, w)
or_account account (err e, w) = (account, w)

abbrev pub provisioned :
    AppState
    → Uuid
    → Caller
    → Account
    → Result ProviderError Uuid
    → World Control
    → Account × World Control
provisioned st tenant_id caller account (err e) w = (account, w)
provisioned st tenant_id caller account (ok sesame_user_id) w = or_account account (
    transact (λ e. e) st.db (tenant tenant_id) (activate_tx tenant_id caller account sesame_user_id)
      w)

unfoldable pub provision_into_sesame :
    AppState → Provisioner → Uuid → Caller → Account → World Control → Account × World Control
provision_into_sesame st sesame tenant_id caller account w =
    provisioned st tenant_id caller account (sesame w.tick account.email account.display_name)
      (next w)

abbrev pub maybe_provision :
    AppState
    → Uuid
    → Caller
    → Option Provisioner
    → Account
    → World Control
    → Account × World Control
maybe_provision st tenant_id caller none account w = (account, w)
maybe_provision st tenant_id caller (some sesame) account w =
    provision_into_sesame st sesame tenant_id caller account w

abbrev pub answer : Account × World Control → Result ApiError Account × World Control
answer (account, w) = (ok account, w)

unfoldable pub create_account :
    AppState → Uuid → Caller → CreateAccount → Io Control ApiError Account
create_account st tenant_id caller req w =
    continue
      (validated (validate_local_part req.local_part)
        (transact db st.db (tenant tenant_id) (create_account_tx tenant_id caller req)) w)
      (λ account w'. answer (maybe_provision st tenant_id caller st.sesame account w'))

unfoldable pub list_accounts : AppState → Uuid → Io Control ApiError (List Account)
list_accounts st tenant_id = transact db st.db (tenant tenant_id) (exec db select_accounts)

-- `policy.unwrap_or_else(|| AbusePolicy::defaults(tenant_id))`; the service's clock is read then.
abbrev pub or_defaults :
    Uuid → Option AbusePolicy → World Control → Result ApiError AbusePolicy × World Control
or_defaults tenant_id none w = (ok (defaults (w.clock w.tick) tenant_id), w)
or_defaults tenant_id (some p) w = (ok p, w)

unfoldable pub get_policy : AppState → Uuid → Io Control ApiError AbusePolicy
get_policy st tenant_id w =
    continue (transact db st.db (tenant tenant_id) (exec db (select_policy tenant_id)) w)
      (or_defaults tenant_id)

abbrev pub policy_entry : Uuid → Caller → SetAbusePolicy → AuditEntry
policy_entry tenant_id caller req =
    entry (some tenant_id) caller "policy.set" "abuse_policy" tenant_id (
      obj (
        field "reject" (number req.reject) (
          field "add_header" (number req.add_header) (field "greylist" (number req.greylist) end))))

abbrev pub put_policy_tx : Uuid → Caller → SetAbusePolicy → Tx Control ApiError AbusePolicy
put_policy_tx tenant_id caller req = do
  p ← exec db (upsert_policy tenant_id req.reject req.add_header req.greylist)
  record_entry db (policy_entry tenant_id caller req)
  pure p

unfoldable pub put_policy :
    AppState → Uuid → Caller → SetAbusePolicy → Io Control ApiError AbusePolicy
put_policy st tenant_id caller req =
    validated (validate_policy req)
      (transact db st.db (tenant tenant_id) (put_policy_tx tenant_id caller req))
