-- ===== src/Wrappers/Sesame.antt =====
-- crates/wrappers/src/sesame_client.rs
use Prim.Native.Char.{code}
use opengroupware.Prelude.{
  ℕ, suc, ◌+◌, ◌-◌, ◌*◌, String, Bool, true, ◌&&◌, Option, none, some, ℤ, pos, negsuc, Result, ok,
  err, ltb, ltb_ℤ, leb, ◌==◌, nat_eq, string_eq, if◌then◌else◌,
}
use opengroupware.Prelude.Texts.{is_blank, filled}
use opengroupware.Prelude.Decimal.{◌⊕◌}
use opengroupware.Types.Provider.{ProviderError, unavailable, internal}
use opengroupware.Db.World.{Uuid}
use opengroupware.Db.Audit.{Value, Fields, text, boolean, obj, end, field}

pub record SesameConfig : Type 0 where
  pub login_url : String
  pub user_mgmt_url : String
  pub tenant : String
  pub client_id : String
  pub client_secret : String

-- `?` on an `Option`.
abbrev and_some : {A B : Type 0} → Option A → (A → Option B) → Option B
and_some none f = none
and_some (some a) f = f a

-- The environment is a function of the variable's name.
unfoldable pub from_env : (String → Option String) → Option SesameConfig
unfolding is_blank
from_env env = and_some (filled (env "SESAME_LOGIN_URL")) λ login_url.
    and_some (filled (env "SESAME_USER_MGMT_URL")) λ user_mgmt_url.
      and_some (filled (env "SESAME_TENANT")) λ tenant.
        and_some (filled (env "SESAME_CLIENT_ID")) λ client_id.
          and_some (filled (env "SESAME_CLIENT_SECRET")) λ client_secret. some (record {
            login_url = login_url;
            user_mgmt_url = user_mgmt_url;
            tenant = tenant;
            client_id = client_id;
            client_secret = client_secret;
          })

pub record CachedToken : Type 0 where
  pub access_token : String
  pub valid_until : ℕ  -- nanoseconds

pub record TokenResponse : Type 0 where
  pub access_token : String
  pub expires_in : ℤ  -- i32

-- A POST request, with its bearer token if it has one and its `X-Tenant-ID`.
pub record Post : Type 0 where
  pub url : String
  pub bearer : Option String
  pub tenant : String
  pub body : Value

pub record Response : Type 0 where
  pub status : ℕ
  pub body : String

-- `reqwest`, `serde_json` and the clock: the n-th request and reading, the two deserialisations, and
-- the text of a status.
pub record Remote : Type 0 where
  pub send : ℕ → Post → Result String Response
  pub token_from : String → Result String TokenResponse
  pub user_from : String → Result String Uuid
  pub show_status : ℕ → String
  pub instant : ℕ → ℕ

-- The token cache of a `SesameClient`; nothing panics while it holds the lock.
pub record ClientState : Type 0 where
  pub token : Option CachedToken
  pub tick : ℕ

abbrev pub ClientIo : Type 0 → Type 0
ClientIo A = ClientState → Result ProviderError A × ClientState

abbrev pub tick_on : ClientState → ClientState
tick_on s = record s { tick = suc s.tick }

abbrev pub is_success : ℕ → Bool
is_success status = leb 200 status && ltb status 300

abbrev valid_token : ℕ → Option CachedToken → Option String
valid_token now none = none
valid_token now (some t) = if ltb now t.valid_until then some t.access_token else none

unfoldable pub cached_token : Remote → ClientState → Option String
cached_token r s = valid_token (r.instant s.tick) s.token

abbrev max_ℤ : ℤ → ℤ → ℤ
max_ℤ a b = if ltb_ℤ a b then b else a

abbrev sub_60 : ℤ → ℤ
sub_60 (pos n) = if ltb n 60 then negsuc (59 - n) else pos (n - 60)
sub_60 (negsuc n) = negsuc (n + 60)

-- `u64::try_from(n).unwrap_or(60)`
abbrev u64_or_60 : ℤ → ℕ
u64_or_60 (pos n) = n
u64_or_60 (negsuc n) = 60

-- `u64::try_from(expires_in.max(61) - 60).unwrap_or(60)`, in seconds.
unfoldable pub ttl_secs : ℤ → ℕ
ttl_secs expires_in = u64_or_60 (sub_60 (max_ℤ expires_in (pos 61)))

unfoldable pub store_token : Remote → String → ℤ → ClientState → ClientState
unfolding ttl_secs
store_token r access_token expires_in s = record (tick_on s) {
  token = some (record {
    access_token = access_token;
    valid_until = r.instant s.tick + ttl_secs expires_in * 1000000000;
  });
}

-- `s.trim_end_matches(c)`
unfoldable pub trim_end_matches : ℕ → String → String
trim_end_matches d String.[] = String.[]
trim_end_matches d (String.◌∷◌ c s) =
    let rest = trim_end_matches d s in if code c == d && rest == "" then "" else String.◌∷◌ c rest

abbrev pub token_request : SesameConfig → Post
token_request cfg = record {
  url = trim_end_matches b'/' cfg.login_url ⊕ "/auth/token";
  bearer = none;
  tenant = cfg.tenant;
  body = obj (
      field "grant_type" (text "client_credentials") (
        field "client_id" (text cfg.client_id)
          (field "client_secret" (text cfg.client_secret) end)));
}

abbrev pub after_token : Remote → Result String TokenResponse → ClientIo String
after_token r (err e) s = (err (internal ("sesame token decode: " ⊕ e)), s)
after_token r (ok body) s =
    if body.access_token == ""
    then (err (unavailable "sesame issued an empty token (invalid client credentials?)"), s)
    else (ok body.access_token, store_token r body.access_token body.expires_in s)

abbrev pub after_token_sent : Remote → Result String Response → ClientIo String
after_token_sent r (err e) s = (err (unavailable ("sesame token request: " ⊕ e)), s)
after_token_sent r (ok resp) s =
    if is_success resp.status
    then after_token r (r.token_from resp.body) s
    else (err (unavailable ("sesame token endpoint returned " ⊕ r.show_status resp.status)), s)

abbrev pub or_request : Remote → SesameConfig → Option String → ClientIo String
or_request r cfg (some t) s = (ok t, s)
or_request r cfg none s = after_token_sent r (r.send s.tick (token_request cfg)) (tick_on s)

abbrev pub clock_read : Option CachedToken → ClientState → ClientState
clock_read none s = s
clock_read (some t) s = tick_on s

unfoldable pub token : Remote → SesameConfig → ClientIo String
unfolding cached_token store_token trim_end_matches
token r cfg s = or_request r cfg (cached_token r s) (clock_read s.token s)

abbrev name_field : String → Fields
name_field display_name =
    if is_blank display_name then end else field "first_name" (text display_name) end

abbrev pub user_request : SesameConfig → String → String → String → Post
user_request cfg t email display_name = record {
  url = trim_end_matches b'/' cfg.user_mgmt_url ⊕ "/admin/users";
  bearer = some t;
  tenant = cfg.tenant;
  body = obj (
      field "email" (text email)
        (field "email_confirmed" (boolean true) (name_field display_name)));
}

abbrev after_user : Result String Uuid → ClientIo Uuid
after_user (err e) s = (err (internal ("sesame create_user decode: " ⊕ e)), s)
after_user (ok user_id) s = (ok user_id, s)

abbrev pub after_user_sent : Remote → Result String Response → ClientIo Uuid
after_user_sent r (err e) s = (err (unavailable ("sesame create_user: " ⊕ e)), s)
after_user_sent r (ok resp) s =
    if is_success resp.status
    then after_user (r.user_from resp.body) s
    else (err (unavailable ("sesame create_user returned " ⊕ r.show_status resp.status)), s)

abbrev pub with_token :
    Remote
    → SesameConfig
    → String
    → String
    → Result ProviderError String × ClientState
    → Result ProviderError Uuid × ClientState
with_token r cfg email display_name (err e, s) = (err e, s)
with_token r cfg email display_name (ok t, s) =
    after_user_sent r (r.send s.tick (user_request cfg t email display_name)) (tick_on s)

unfoldable pub provision_user : Remote → SesameConfig → String → String → ClientIo Uuid
unfolding token is_blank
provision_user r cfg email display_name s = with_token r cfg email display_name (token r cfg s)
