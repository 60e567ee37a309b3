-- ===== src/Console/Tests.antt =====
-- A console over an API that lists one tenant.
use opengroupware.Prelude.{◌≡◌, refl, none, [], ◌∷◌, float_ℕ, ok, err}
use opengroupware.Console.Client.{Web, AdminApi, admin_api_from_env, TenantDto, PolicyDto}
use opengroupware.Console.Views.{badge_class, initial}
use opengroupware.Console.Pages.{tenant_detail_page}
use opengroupware.Console.Outcomes.{Outcome, tenant_detail_page-Outcome}
use opengroupware.Wrappers.Sesame.{trim_end_matches}

abbrev acme : TenantDto
acme = record { id = 1; slug = "acme"; name = "Acme"; plan = "standard"; status = "active" }

abbrev thresholds : PolicyDto
thresholds = record { reject = float_ℕ 15; add_header = float_ℕ 6; greylist = float_ℕ 4 }

abbrev web : Web
web = record {
  send = λ n url actor. ok (record { status = 200; body = "{}" });
  tenants_from = λ body. ok (acme ∷ []);
  domains_from = λ body. ok (record { fqdn = "acme.com"; status = "active" } ∷ []);
  accounts_from = λ body. err "missing field `email`";
  policy_from = λ body. ok thresholds;
  show_status = λ status. "200 OK";
  show_uuid = λ id. "00000000-0000-0000-0000-000000000001";
}

abbrev api : AdminApi
api = record { base = "http://127.0.0.1:8080"; actor = "admin-console" }

from_env-defaults : admin_api_from_env (λ name. none) ≡ api
unfolding admin_api_from_env trim_end_matches
from_env-defaults = refl

badge_class-pending : badge_class "pending_provisioning" ≡ "badge warn"
unfolding badge_class
badge_class-pending = refl

initial-acme : initial "acme" ≡ "A"
unfolding initial
initial-acme = refl

tenant_detail_page-Outcome_example : Outcome web api 1 0 (tenant_detail_page web api 1 0)
tenant_detail_page-Outcome_example = tenant_detail_page-Outcome web api 1 0
