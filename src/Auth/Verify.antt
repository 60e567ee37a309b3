-- ===== src/Auth/Verify.antt =====
-- `verify`, `caller`, `bearer` and `require_auth` of crates/og-auth/src/lib.rs.
use opengroupware.Prelude.{
  ℕ, String, Bool, true, false, not, ◌&&◌, ◌||◌, Option, none, some, List, [], ◌∷◌, ◌++◌, ℤ, pos,
  negsuc, ltb_ℤ, Result, ok, err, ok_or, ◌==◌, string_eq, nat_eq, if◌then◌else◌,
}
use opengroupware.Prelude.Texts.{codes, split}
use opengroupware.Db.World.{Uuid}
use opengroupware.Auth.Caller.{Caller}
use opengroupware.Auth.Outside.{
  now_unix_at, Header, Claims, Sx, Outside, AuthError, missing_token, malformed, bad_signature,
  expired, issuer_mismatch, AuthConfig, AuthState, AuthIo, read_on, lift, ◌>>=◌, ◌>>◌,
}
use opengroupware.Auth.Keys.{key_for}

abbrev is_zero : ℤ → Bool
is_zero (pos n) = n == 0
is_zero (negsuc n) = false

-- `claims.exp != 0 && claims.exp < now`
abbrev pub is_expired : ℤ → Claims → Bool
is_expired now c = not (is_zero c.exp) && ltb_ℤ c.exp now

-- The issuer is asked for and differs.
abbrev pub is_foreign : Option String → Claims → Bool
is_foreign none c = false
is_foreign (some expected) c = not (c.iss == expected)

abbrev pub and_decode : {A : Type 0} → (List ℕ → Option A) → Option (List ℕ) → Option A
and_decode f none = none
and_decode f (some bytes) = f bytes

-- `decode_json` at its two types.
abbrev pub decode_header : Outside → List ℕ → Option Header
decode_header o seg = and_decode o.header_from_slice (o.decode seg)

abbrev pub decode_claims : Outside → List ℕ → Option Claims
decode_claims o seg = and_decode o.claims_from_slice (o.decode seg)

abbrev tenant_of : Outside → Option String → Option Uuid
tenant_of o none = none
tenant_of o (some t) = o.parse_uuid t

abbrev roles_of : Option Sx → List String
roles_of none = []
roles_of (some sx) = sx.roles

abbrev pub caller_of : Outside → Claims → Caller
caller_of o c = record {
  subject = c.sub;
  tenant_id = tenant_of o c.tenant_id;
  roles = roles_of c.sx;
}

-- The checks on the claims, once the signature holds.
unfoldable pub accept : Outside → AuthConfig → Claims → AuthIo Caller
accept o cfg c s =
    if is_expired (now_unix_at o s.tick) c
    then (err expired, read_on s)
    else if is_foreign cfg.issuer c
    then (err issuer_mismatch, read_on s)
    else (ok (caller_of o c), read_on s)

abbrev pub check : Bool → AuthError → Result AuthError Unit
check true e = ok tt
check false e = err e

unfoldable pub verify_parts : Outside → AuthConfig → List ℕ → List ℕ → List ℕ → AuthIo Caller
unfolding accept
verify_parts o cfg h p sig = do
  header ← lift (ok_or (decode_header o h) malformed)
  lift (check (header.alg == "EdDSA") bad_signature)
  pubkey ← key_for o cfg header.kid
  signature ← lift (ok_or (o.decode sig) malformed)
  lift (check (o.verify_ed25519 pubkey (h ++ b'.' ∷ p) signature) bad_signature)
  claims ← lift (ok_or (decode_claims o p) malformed)
  accept o cfg claims

abbrev pub three_parts : Outside → AuthConfig → List (List ℕ) → AuthIo Caller
three_parts o cfg (h ∷ p ∷ s ∷ []) = verify_parts o cfg h p s
three_parts o cfg _ = lift (err malformed)

unfoldable pub verify : Outside → AuthConfig → List ℕ → AuthIo Caller
unfolding verify_parts split
verify o cfg token = three_parts o cfg (split b'.' token)

-- The two headers that are read: their first value, where it is visible ASCII.
pub record HeaderMap : Type 0 where
  pub authorization : Option String
  pub x_actor : Option String

-- `str::strip_prefix`
unfoldable pub strip_prefix : List ℕ → List ℕ → Option (List ℕ)
strip_prefix [] cs = some cs
strip_prefix (d ∷ ds) [] = none
strip_prefix (d ∷ ds) (c ∷ cs) = let rest = strip_prefix ds cs in if c == d then rest else none

abbrev bearer_of : Option String → Option (List ℕ)
bearer_of none = none
bearer_of (some v) = strip_prefix (codes "Bearer ") (codes v)

unfoldable pub bearer : HeaderMap → Option (List ℕ)
unfolding strip_prefix
bearer headers = bearer_of headers.authorization

abbrev actor_or_unknown : Option String → String
actor_or_unknown none = "unknown"
actor_or_unknown (some a) = a

-- The caller when no JWKS URL is configured.
abbrev pub dev_caller : HeaderMap → Caller
dev_caller headers = record {
  subject = actor_or_unknown headers.x_actor;
  tenant_id = none;
  roles = [];
}

abbrev pub enforcing : AuthConfig → Bool
enforcing cfg = elim cfg.jwks_url [ none ↦ false | some _ ↦ true ]

abbrev pub caller_token : Outside → AuthConfig → HeaderMap → AuthIo Caller
caller_token o cfg headers = do
  token ← lift (ok_or (bearer headers) missing_token)
  verify o cfg token

unfoldable pub caller : Outside → AuthConfig → HeaderMap → AuthIo Caller
unfolding bearer verify
caller o cfg headers s =
    if not (enforcing cfg) then (ok (dev_caller headers), s) else caller_token o cfg headers s

-- What the middleware does with a request: it runs the handler, with the caller that it put in the
-- request's extensions, or with none on an open path; or it answers with a status.
pub data Outcome : Type 0 where
  run : Option Caller → Outcome
  reject : ℕ → Outcome

abbrev pub outcome : Result AuthError Caller × AuthState → Outcome × AuthState
outcome (ok c, s) = (run (some c), s)
outcome (err e, s) = (reject 401, s)

abbrev pub is_open : String → Bool
is_open path = path == "/health" || path == "/metrics"

unfoldable pub require_auth :
    Outside → AuthConfig → String → HeaderMap → AuthState → Outcome × AuthState
unfolding caller
require_auth o cfg path headers s =
    if is_open path then (run none, s) else outcome (caller o cfg headers s)
