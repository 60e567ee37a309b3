-- ===== src/Console/Client.antt =====
-- crates/admin-console/src/client.rs
use opengroupware.Prelude.{
  ℕ, String, Option, none, some, List, ℤ, Float64, Result, ok, err, if◌then◌else◌,
}
use opengroupware.Prelude.Decimal.{◌⊕◌}
use opengroupware.Db.World.{Uuid}
use opengroupware.Wrappers.Sesame.{Response, is_success, trim_end_matches}

pub record TenantDto : Type 0 where
  pub id : Uuid
  pub slug : String
  pub name : String
  pub plan : String
  pub status : String

pub record DomainDto : Type 0 where
  pub fqdn : String
  pub status : String

pub record AccountDto : Type 0 where
  pub email : String
  pub display_name : String
  pub quota_mb : ℤ  -- i32
  pub status : String

pub record PolicyDto : Type 0 where
  pub reject : Float64
  pub add_header : Float64
  pub greylist : Float64

-- `reqwest`, `serde_json` and `uuid`: the n-th GET of a URL under an `x-actor`, the deserialisations,
-- the text of a status and of an identifier.
pub record Web : Type 0 where
  pub send : ℕ → (url actor : String) → Result String Response
  pub tenants_from : String → Result String (List TenantDto)
  pub domains_from : String → Result String (List DomainDto)
  pub accounts_from : String → Result String (List AccountDto)
  pub policy_from : String → Result String PolicyDto
  pub show_status : ℕ → String
  pub show_uuid : Uuid → String

pub record AdminApi : Type 0 where
  pub base : String
  pub actor : String

abbrev or_else : Option String → String → String
or_else none d = d
or_else (some v) d = v

-- The environment is a function of the variable's name.
unfoldable pub admin_api_from_env : (String → Option String) → AdminApi
admin_api_from_env env = record {
  base = trim_end_matches b'/' (or_else (env "ADMIN_API_URL") "http://127.0.0.1:8080");
  actor = or_else (env "ADMIN_CONSOLE_ACTOR") "admin-console";
}

module _ {A : Type 0} where
  abbrev pub decoded : (path : String) → Result String A → Result String A
  decoded path (ok a) = ok a
  decoded path (err e) = err ("decoding " ⊕ path ⊕ ": " ⊕ e)

  abbrev pub fetched :
      Web → (String → Result String A) → (path : String) → Result String Response → Result String A
  fetched web from path (err e) = err ("request to " ⊕ path ⊕ " failed: " ⊕ e)
  fetched web from path (ok resp) =
      if is_success resp.status
      then decoded path (from resp.body)
      else err (path ⊕ " returned " ⊕ web.show_status resp.status)

  -- The `n`-th request.
  abbrev pub get_json :
      Web → AdminApi → (String → Result String A) → (path : String) → ℕ → Result String A
  get_json web api from path n = fetched web from path (web.send n (api.base ⊕ path) api.actor)

unfoldable pub get_tenants_json : Web → AdminApi → ℕ → Result String (List TenantDto)
get_tenants_json web api = get_json web api web.tenants_from "/api/v1/tenants"

unfoldable pub domains_of_tenant : Web → AdminApi → Uuid → ℕ → Result String (List DomainDto)
domains_of_tenant web api tenant =
    get_json web api web.domains_from ("/api/v1/tenants/" ⊕ web.show_uuid tenant ⊕ "/domains")

unfoldable pub accounts_of_tenant : Web → AdminApi → Uuid → ℕ → Result String (List AccountDto)
accounts_of_tenant web api tenant =
    get_json web api web.accounts_from ("/api/v1/tenants/" ⊕ web.show_uuid tenant ⊕ "/accounts")

unfoldable pub policy_of_tenant : Web → AdminApi → Uuid → ℕ → Result String PolicyDto
policy_of_tenant web api tenant =
    get_json web api web.policy_from ("/api/v1/tenants/" ⊕ web.show_uuid tenant ⊕ "/policy")
