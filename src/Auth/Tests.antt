-- ===== src/Auth/Tests.antt =====
-- An authenticator whose signatures are right when they are as long as the key.
use opengroupware.Prelude.{
  ℕ, ◌+◌, refl, none, some, List, [], ◌∷◌, pos, ok, length, ◌==◌, nat_eq, string_eq,
}
use opengroupware.Prelude.Texts.{codes}
use opengroupware.Auth.Outside.{Jwk, Outside, AuthConfig, CachedKeys, AuthState}
use opengroupware.Auth.Keys.{key_for}
use opengroupware.Auth.Verify.{HeaderMap, verify, require_auth}
use opengroupware.Auth.Lookup.{IfOk, InCache, key_for-InCache}
use opengroupware.Auth.Soundness.{Authentic, verify-Authentic, IsGuarded, require_auth-IsGuarded}
use opengroupware.Auth.Cache.{IsServed, key_for-IsServed}

abbrev signing_key : Jwk
signing_key = record { kid = "k1"; x = "AAAA"; kty = "OKP"; crv = "Ed25519" }

abbrev rsa_key : Jwk
rsa_key = record { kid = "k2"; x = "AAAA"; kty = "RSA"; crv = "" }

abbrev outside : Outside
outside = record {
  decode = λ cs. some cs;
  header_from_slice = λ _. some (record { alg = "EdDSA"; kid = "k1" });
  claims_from_slice = λ _. some (record {
    sub = "client:ci";
    exp = pos 2000;
    iss = "https://idam.example.com";
    tenant_id = none;
    sx = none;
  });
  verify_ed25519 = λ key message signature. length signature == length key;
  parse_uuid = λ _. none;
  get_jwks = λ n url. ok (rsa_key ∷ signing_key ∷ []);
  instant = λ n. n;
  since_epoch = λ n. some (1000 + n);
}

abbrev config : AuthConfig
config = record {
  jwks_url = some "http://idam/.well-known/jwks.json";
  issuer = some "https://idam.example.com";
  cache_ttl = 600;
}

abbrev empty : AuthState
empty = record { cache = none; tick = 0 }

abbrev token : List ℕ
token = codes "head.claims.abcd"

abbrev headers : HeaderMap
headers = record { authorization = some "Bearer head.claims.abcd"; x_actor = none }

verify-Authentic_example : IfOk (Authentic outside config token) (verify outside config token empty)
verify-Authentic_example = verify-Authentic outside config token empty

require_auth-IsGuarded_example :
    IsGuarded outside config "/api/v1/tenants" headers
      (require_auth outside config "/api/v1/tenants" headers empty)
require_auth-IsGuarded_example =
    require_auth-IsGuarded outside config "/api/v1/tenants" headers empty refl

key_for-InCache_example : IfOk (InCache outside config "k1") (key_for outside config "k1" empty)
key_for-InCache_example = key_for-InCache outside config "k1" empty

key_for-IsServed_example : IsServed outside config (key_for outside config "k1" empty).1.cache
key_for-IsServed_example = key_for-IsServed outside config "k1" empty tt

abbrev keys : CachedKeys
keys = record { keys = ("k1", 1 ∷ 2 ∷ []) ∷ []; fetched_at = 0 }

abbrev filled : AuthState
filled = record { cache = some keys; tick = 5 }
