-- ===== src/Types/Provider.antt =====
-- `ProviderContext` and `ProviderError` of crates/types/src/lib.rs.
use opengroupware.Prelude.{String, Option, none, some, Result}
use opengroupware.Db.World.{Uuid}

pub record ProviderContext : Type 0 where
  pub tenant_id : Uuid
  pub account_id : Option Uuid

abbrev pub new : Uuid → ProviderContext
new tenant_id = record { tenant_id = tenant_id; account_id = none }

abbrev pub for_account : Uuid → Uuid → ProviderContext
for_account tenant_id account_id = record { tenant_id = tenant_id; account_id = some account_id }

pub data ProviderError : Type 0 where
  not_found : String → ProviderError
  tenant_mismatch : (expected actual : Uuid) → ProviderError
  tenant_suspended : String → ProviderError
  quota_exceeded : ProviderError
  internal unavailable invalid_input : String → ProviderError

-- A call of a provider: what it answers, and what it makes of the backend's state.
abbrev pub Call : Type 0 → Type 0 → Type 0
Call S A = S → Result ProviderError A × S
