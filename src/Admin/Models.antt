-- ===== src/Admin/Models.antt =====
-- crates/admin-api/src/models.rs: rows and requests.
use opengroupware.Prelude.{String, ℤ, pos, Float64, float_ℕ, Option, none, some}
use opengroupware.Db.World.{Uuid, Time}

pub record Tenant : Type 0 where
  pub id : Uuid
  pub slug : String
  pub name : String
  pub plan : String
  pub status : String
  pub created_at : Time

pub record Domain : Type 0 where
  pub id : Uuid
  pub tenant_id : Uuid
  pub fqdn : String
  pub status : String
  pub created_at : Time

pub record Account : Type 0 where
  pub id : Uuid
  pub tenant_id : Uuid
  pub domain_id : Uuid
  pub email : String
  pub display_name : String
  pub quota_mb : ℤ
  pub status : String
  pub created_at : Time

pub record AbusePolicy : Type 0 where
  pub tenant_id : Uuid
  pub reject : Float64
  pub add_header : Float64
  pub greylist : Float64
  pub updated_at : Time

-- `AbusePolicy::defaults`; `now` is the service's own clock.
unfoldable pub defaults : Time → Uuid → AbusePolicy
defaults now tenant_id = record {
  tenant_id = tenant_id;
  reject = float_ℕ 15;
  add_header = float_ℕ 6;
  greylist = float_ℕ 4;
  updated_at = now;
}

pub record CreateTenant : Type 0 where
  pub slug : String
  pub name : String
  pub plan : String

-- A missing `plan` is filled in by `default_plan`.
abbrev pub plan_or_default : Option String → String
plan_or_default none = "standard"
plan_or_default (some plan) = plan

pub record CreateDomain : Type 0 where
  pub fqdn : String

pub record CreateAccount : Type 0 where
  pub domain_id : Uuid
  pub local_part : String
  pub display_name : String
  pub quota_mb : ℤ

-- A missing `quota_mb` is filled in by `default_quota`.
abbrev pub quota_or_default : Option ℤ → ℤ
quota_or_default none = pos 1024
quota_or_default (some quota) = quota

pub record SetAbusePolicy : Type 0 where
  pub reject : Float64
  pub add_header : Float64
  pub greylist : Float64
