-- ===== src/Types/Identity.antt =====
-- The interface of crates/types/src/providers/identity.rs and its data.
use opengroupware.Prelude.{String, Bool, Option, List}
use opengroupware.Db.World.{Uuid, Time}
use opengroupware.Types.Provider.{ProviderContext, Call}

pub record TokenInfo : Type 0 where
  pub tenant_id : Uuid
  pub account_id : Uuid
  pub email : String
  pub display_name : String
  pub is_admin : Bool
  pub mfa_enabled : Bool

pub record AppPassword : Type 0 where
  pub id : Uuid
  pub account_id : Uuid
  pub tenant_id : Uuid
  pub name : String
  pub created_at : Time
  pub expires_at : Option Time
  pub last_used_at : Option Time

pub record SessionInfo : Type 0 where
  pub id : Uuid
  pub account_id : Uuid
  pub tenant_id : Uuid
  pub device : Option String
  pub ip : Option String
  pub created_at : Time
  pub last_activity : Time
  pub is_active : Bool

-- `trait IdentityProvider`: an operation takes and leaves the state of its backend.
pub record IdentityProvider (S : Type 0) : Type 0 where
  pub authenticate_oidc : String → Call S TokenInfo
  pub authenticate_password : String → String → Call S (Uuid × TokenInfo)
  pub verify_mfa : ProviderContext → Uuid → String → Call S Bool
  pub create_app_password : ProviderContext → Uuid → String → Call S AppPassword
  pub revoke_app_password : ProviderContext → Uuid → Uuid → Call S Unit
  pub list_app_passwords : ProviderContext → Uuid → Call S (List AppPassword)
  pub create_session : ProviderContext → Uuid → Option String → Option String → Call S Uuid
  pub validate_session : Uuid → Call S (Option SessionInfo)
  pub revoke_session : ProviderContext → Uuid → Call S Unit
  pub list_sessions : ProviderContext → Uuid → Call S (List SessionInfo)
