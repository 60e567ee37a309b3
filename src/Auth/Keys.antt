-- ===== src/Auth/Keys.antt =====
-- `parse_jwks`, `cached`, `refresh` and `key_for` of crates/og-auth/src/lib.rs.
use opengroupware.Prelude.{
  ℕ, ◌-◌, ◌*◌, String, Bool, not, ◌||◌, Option, none, some, List, [], ◌∷◌, Result, ok, err, ok_or,
  ltb, ◌==◌, string_eq, find?, select, if◌then◌else◌,
}
use opengroupware.Prelude.Texts.{codes, filled}
use opengroupware.Auth.Outside.{
  Jwk, JwkSet, Outside, AuthError, unknown_key, jwks_unavailable, AuthConfig, KeyMap, CachedKeys,
  AuthState, AuthIo, read_on, lift, ◌>>=◌, ◌>>◌,
}

-- `HashMap::insert` and `HashMap::get`
unfoldable pub insert_key : String → List ℕ → KeyMap → KeyMap
insert_key kid raw keys = (kid, raw) ∷ select (λ (k : String × List ℕ). not (k.0 == kid)) keys

abbrev value_of : Option (String × List ℕ) → Option (List ℕ)
value_of none = none
value_of (some k) = some k.1

unfoldable pub get_key : String → KeyMap → Option (List ℕ)
get_key kid keys = value_of (find? (λ (k : String × List ℕ). k.0 == kid) keys)

abbrev insert_decoded : String → Option (List ℕ) → KeyMap → KeyMap
insert_decoded kid none keys = keys
insert_decoded kid (some raw) keys = insert_key kid raw keys

-- The body of the loop of `parse_jwks`.
unfoldable pub add_jwk : Outside → Jwk → KeyMap → KeyMap
unfolding insert_key
add_jwk o jwk keys =
    if not (jwk.kty == "OKP") || not (jwk.crv == "Ed25519")
    then keys
    else insert_decoded jwk.kid (o.decode (codes jwk.x)) keys

unfoldable pub parse_from : Outside → KeyMap → JwkSet → KeyMap
unfolding add_jwk
parse_from o keys [] = keys
parse_from o keys (jwk ∷ set) = parse_from o (add_jwk o jwk keys) set

unfoldable pub parse_jwks : Outside → JwkSet → KeyMap
unfolding parse_from
parse_jwks o set = parse_from o [] set

-- `Instant::elapsed` is zero for an instant that is yet to come.
abbrev pub is_stale : AuthConfig → ℕ → CachedKeys → Bool
is_stale cfg now c = ltb cfg.cache_ttl (now - c.fetched_at)

abbrev pub in_cache :
    Outside
    → AuthConfig
    → String
    → Option CachedKeys
    → AuthState
    → Result AuthError (Option (List ℕ)) × AuthState
in_cache o cfg kid none s = (ok none, s)
in_cache o cfg kid (some c) s =
    (ok (if is_stale cfg (o.instant s.tick) c then none else get_key kid c.keys), read_on s)

unfoldable pub cached : Outside → AuthConfig → String → AuthIo (Option (List ℕ))
unfolding get_key
cached o cfg kid s = in_cache o cfg kid s.cache s

abbrev pub store : Outside → Result String JwkSet → AuthIo Unit
store o (err e) s = (err (jwks_unavailable e), read_on s)
store o (ok set) s = (
  ok tt,
  record (read_on (read_on s)) {
    cache = some (record { keys = parse_jwks o set; fetched_at = o.instant (read_on s).tick });
  },
)

abbrev pub fetch : Outside → Option String → AuthIo Unit
fetch o none s = (err (jwks_unavailable "no url"), s)
fetch o (some url) s = store o (o.get_jwks s.tick url) s

unfoldable pub refresh : Outside → AuthConfig → AuthIo Unit
unfolding parse_jwks
refresh o cfg = fetch o cfg.jwks_url

abbrev pub or_refresh : Outside → AuthConfig → String → Option (List ℕ) → AuthIo (List ℕ)
or_refresh o cfg kid (some k) s = (ok k, s)
or_refresh o cfg kid none s =
    ((refresh o cfg >> cached o cfg kid) >>= λ k. lift (ok_or k unknown_key)) s

unfoldable pub key_for : Outside → AuthConfig → String → AuthIo (List ℕ)
unfolding cached refresh
key_for o cfg kid = cached o cfg kid >>= or_refresh o cfg kid

-- `AuthConfig::from_env`, where the environment is a function of the variable's name: 600 seconds.
unfoldable pub auth_from_env : (String → Option String) → AuthConfig
auth_from_env env = record {
  jwks_url = filled (env "OG_AUTH_JWKS_URL");
  issuer = filled (env "OG_AUTH_ISSUER");
  cache_ttl = 600 * 1000000000;
}

-- `Authenticator::new`
abbrev pub new_authenticator : AuthState
new_authenticator = record { cache = none; tick = 0 }
