-- ===== src/Auth/Outside.antt =====
-- What crates/og-auth/src/lib.rs takes from other crates and from the machine, and the state of an
-- `Authenticator` with the errors that its operations return.
use opengroupware.Prelude.{
  ltb, ◌-◌, ◌^◌, pos, none, some, if◌then◌else◌, ℕ, suc, String, Bool, Option, List, ℤ, Result, ok,
  err,
}
use opengroupware.Db.World.{Uuid}

pub record Jwk : Type 0 where
  pub kid : String
  pub x : String
  pub kty : String
  pub crv : String

-- `JwkSet`
abbrev pub JwkSet : Type 0
JwkSet = List Jwk

pub record Header : Type 0 where
  pub alg : String
  pub kid : String

pub record Sx : Type 0 where
  pub roles : List String

pub record Claims : Type 0 where
  pub sub : String
  pub exp : ℤ  -- i64; 0 when it is missing
  pub iss : String
  pub tenant_id : Option String
  pub sx : Option Sx

-- `base64`, `serde_json`, `ring`, `uuid` and `reqwest`, as far as they are called: decoding of
-- unpadded URL-safe base64, the two deserialisations, Ed25519 verification (key, message,
-- signature), `Uuid::parse_str`, and the JWKS request. The clocks and the request are functions of
-- the number of the reading.
pub record Outside : Type 0 where
  pub decode : List ℕ → Option (List ℕ)
  pub header_from_slice : List ℕ → Option Header
  pub claims_from_slice : List ℕ → Option Claims
  pub verify_ed25519 : List ℕ → List ℕ → List ℕ → Bool
  pub parse_uuid : String → Option Uuid
  pub get_jwks : ℕ → String → Result String JwkSet
  pub instant : ℕ → ℕ  -- `Instant::now`, in nanoseconds
  pub since_epoch : ℕ → Option ℕ  -- `SystemTime::now` since the epoch, in seconds

-- `now_unix`: an i64, and 0 on a clock before the epoch.
unfoldable pub now_unix : Option ℕ → ℤ
now_unix none = pos 0
now_unix (some secs) = if ltb secs (2 ^ 63) then pos secs else pos (2 ^ 63 - 1)

abbrev pub now_unix_at : Outside → ℕ → ℤ
now_unix_at o n = now_unix (o.since_epoch n)

pub data AuthError : Type 0 where
  missing_token malformed unknown_key bad_signature expired issuer_mismatch : AuthError
  jwks_unavailable : String → AuthError

pub record AuthConfig : Type 0 where
  pub jwks_url : Option String
  pub issuer : Option String
  pub cache_ttl : ℕ  -- nanoseconds

-- `HashMap<String, Vec<u8>>`, with at most one entry for each key.
abbrev pub KeyMap : Type 0
KeyMap = List (String × List ℕ)

pub record CachedKeys : Type 0 where
  pub keys : KeyMap
  pub fetched_at : ℕ

-- The cache of an `Authenticator`, and the number of the next reading of a clock or of the network.
pub record AuthState : Type 0 where
  pub cache : Option CachedKeys
  pub tick : ℕ

abbrev pub AuthIo : Type 0 → Type 0
AuthIo A = AuthState → Result AuthError A × AuthState

abbrev pub read_on : AuthState → AuthState
read_on s = record s { tick = suc s.tick }

module _ {A B : Type 0} where
  abbrev and_then : Result AuthError A × AuthState → (A → AuthIo B) → Result AuthError B × AuthState
  and_then (ok a, s) f = f a s
  and_then (err e, s) f = (err e, s)

  infixl 5 ◌>>=◌ ◌>>◌
  abbrev pub ◌>>=◌ : AuthIo A → (A → AuthIo B) → AuthIo B
  ◌>>=◌ m f s = and_then (m s) f

  abbrev pub ◌>>◌ : AuthIo A → AuthIo B → AuthIo B
  m >> k = m >>= λ _. k

module _ {A : Type 0} where
  abbrev pub lift : Result AuthError A → AuthIo A
  lift r s = (r, s)
