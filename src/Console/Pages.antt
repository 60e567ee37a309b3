-- ===== src/Console/Pages.antt =====
-- The handlers of crates/admin-console/src/main.rs, with their requests from the `n`-th on.
use opengroupware.Prelude.{
  ℕ, suc, String, Option, none, some, List, [], Result, ok, err, find?, ◌==◌, nat_eq,
}
use opengroupware.Db.World.{Uuid}
use opengroupware.Service.Env.{resolve_port}
use opengroupware.Console.Client.{
  Web, AdminApi, TenantDto, DomainDto, AccountDto, PolicyDto, get_tenants_json, domains_of_tenant,
  accounts_of_tenant, policy_of_tenant,
}
use opengroupware.Console.Views.{Html, render_tenants_page, render_detail_page, render_error_page}

-- The port of `listen_addr`.
unfoldable pub listen_port : (String → Option String) → ℕ
listen_port env = resolve_port (env "PORT") 3001

abbrev pub unwrap_or_default : {A : Type 0} → Result String (List A) → List A
unwrap_or_default (ok a) = a
unwrap_or_default (err e) = []

abbrev pub with_policy :
    TenantDto → List DomainDto → List AccountDto → Result String PolicyDto → Html
with_policy tenant domains accounts (ok policy) = render_detail_page tenant domains accounts policy
with_policy tenant domains accounts (err e) = render_error_page tenant.name e

module _ (web : Web) (api : AdminApi) where
  abbrev pub tenants_page_of : Result String (List TenantDto) → Html
  tenants_page_of (ok tenants) = render_tenants_page web.show_uuid tenants
  tenants_page_of (err e) = render_error_page "Tenants" e

  unfoldable pub tenants_page : ℕ → Html
  tenants_page n = tenants_page_of (get_tenants_json web api n)

  -- `join!` of three requests that only read: `send` may answer each in any way.
  abbrev pub detail_page_of : Uuid → ℕ → Option TenantDto → Html
  detail_page_of id n none = render_error_page "Tenant not found" "No tenant with that id."
  detail_page_of id n (some tenant) =
      with_policy tenant (unwrap_or_default (domains_of_tenant web api id n))
        (unwrap_or_default (accounts_of_tenant web api id (suc n)))
        (policy_of_tenant web api id (suc (suc n)))

  abbrev pub after_tenants : Uuid → ℕ → Result String (List TenantDto) → Html
  after_tenants id n (err e) = render_error_page "Tenant" e
  after_tenants id n (ok tenants) =
      detail_page_of id n (find? (λ (t : TenantDto). t.id == id) tenants)

  unfoldable pub tenant_detail_page : Uuid → ℕ → Html
  tenant_detail_page id n = after_tenants id (suc n) (get_tenants_json web api n)
