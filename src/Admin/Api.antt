-- ===== src/Admin/Api.antt =====
-- `router` of crates/admin-api/src/routes.rs: one constructor for each method and path, with the
-- decoded parameters, and the state that a request leaves.
use opengroupware.Prelude.{List, [], ◌∷◌}
use opengroupware.Db.World.{Uuid, World}
use opengroupware.Auth.Caller.{Caller}
use opengroupware.Admin.Models.{CreateTenant, CreateDomain, CreateAccount, SetAbusePolicy}
use opengroupware.Admin.Tables.{Control}
use opengroupware.Admin.Routes.{
  AppState, create_tenant, list_tenants, create_domain, list_domains, create_account, list_accounts,
  get_policy, put_policy,
}

pub data Request : Type 0 where
  post_tenants : CreateTenant → Request
  get_tenants : Request
  post_domains : Uuid → CreateDomain → Request
  get_domains : Uuid → Request
  post_accounts : Uuid → CreateAccount → Request
  get_accounts : Uuid → Request
  get_abuse_policy : Uuid → Request
  put_abuse_policy : Uuid → SetAbusePolicy → Request

unfoldable pub router : AppState → Caller → Request → World Control → World Control
router st caller (post_tenants req) w = (create_tenant st caller req w).1
router st caller get_tenants w = (list_tenants st w).1
router st caller (post_domains t req) w = (create_domain st t caller req w).1
router st caller (get_domains t) w = (list_domains st t w).1
router st caller (post_accounts t req) w = (create_account st t caller req w).1
router st caller (get_accounts t) w = (list_accounts st t w).1
router st caller (get_abuse_policy t) w = (get_policy st t w).1
router st caller (put_abuse_policy t req) w = (put_policy st t caller req w).1

-- Requests from any callers, one after another.
unfoldable pub serve : AppState → List (Caller × Request) → World Control → World Control
unfolding router
serve st [] w = w
serve st ((caller, req) ∷ rest) w = serve st rest (router st caller req w)
