-- ===== src/Wrappers/StalwartIdentity.antt =====
-- `StalwartIdentityProvider` of crates/wrappers/src/stalwart_identity.rs.
use opengroupware.Prelude.{String, Bool, true, Option, List, []}
use opengroupware.Db.World.{Uuid}
use opengroupware.Types.Provider.{ProviderContext, Call}
use opengroupware.Types.Identity.{TokenInfo, AppPassword, SessionInfo, IdentityProvider}
use opengroupware.Wrappers.Stubs.{Fresh, answer, fresh, not_implemented}

pub record StalwartIdentityProvider : Type 0 where
  pub client_url : String
  pub admin_api_key : String

abbrev pub authenticate_oidc : StalwartIdentityProvider → String → Call Fresh TokenInfo
authenticate_oidc p access_token = not_implemented

abbrev pub authenticate_password :
    StalwartIdentityProvider → String → String → Call Fresh (Uuid × TokenInfo)
authenticate_password p email password = not_implemented

abbrev pub verify_mfa : StalwartIdentityProvider → ProviderContext → Uuid → String → Call Fresh Bool
verify_mfa p ctx account_id token = answer true

abbrev pub create_app_password :
    StalwartIdentityProvider → ProviderContext → Uuid → String → Call Fresh AppPassword
create_app_password p ctx account_id name = not_implemented

abbrev pub revoke_app_password :
    StalwartIdentityProvider → ProviderContext → Uuid → Uuid → Call Fresh Unit
revoke_app_password p ctx account_id password_id = answer tt

abbrev pub list_app_passwords :
    StalwartIdentityProvider → ProviderContext → Uuid → Call Fresh (List AppPassword)
list_app_passwords p ctx account_id = answer []

abbrev pub create_session :
    StalwartIdentityProvider
    → ProviderContext
    → Uuid
    → Option String
    → Option String
    → Call Fresh Uuid
create_session p ctx account_id device ip = fresh

abbrev pub validate_session : StalwartIdentityProvider → Uuid → Call Fresh (Option SessionInfo)
validate_session p session_id = not_implemented

abbrev pub revoke_session : StalwartIdentityProvider → ProviderContext → Uuid → Call Fresh Unit
revoke_session p ctx session_id = answer tt

abbrev pub list_sessions :
    StalwartIdentityProvider → ProviderContext → Uuid → Call Fresh (List SessionInfo)
list_sessions p ctx account_id = answer []

-- The provider.
abbrev pub stalwart_identity : StalwartIdentityProvider → IdentityProvider Fresh
stalwart_identity p = record {
  authenticate_oidc = authenticate_oidc p;
  authenticate_password = authenticate_password p;
  verify_mfa = verify_mfa p;
  create_app_password = create_app_password p;
  revoke_app_password = revoke_app_password p;
  list_app_passwords = list_app_passwords p;
  create_session = create_session p;
  validate_session = validate_session p;
  revoke_session = revoke_session p;
  list_sessions = list_sessions p;
}
