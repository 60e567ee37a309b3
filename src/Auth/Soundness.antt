-- ===== src/Auth/Soundness.antt =====
-- What an accepted token proves about its bearer.
use opengroupware.Prelude.{
  ℕ, zero, suc, String, ◌≡◌, refl, sym, ap, true, false, Option, none, some, List, [], ◌∷◌, ◌++◌, ℤ,
  pos, negsuc, ltb_ℤ, Result, ok, err, ok_or, ◌==◌, string_eq, str_iff, ◌⊎◌, inl, inr, Bool-cases,
  arith,
}
use opengroupware.Prelude.Texts.{split}
use opengroupware.Auth.Caller.{Caller}
use opengroupware.Auth.Outside.{
  now_unix_at, Header, Claims, Outside, AuthError, missing_token, malformed, bad_signature,
  AuthConfig, AuthState, read_on, lift, ◌>>=◌,
}
use opengroupware.Auth.Keys.{key_for}
use opengroupware.Auth.Verify.{
  decode_header, decode_claims, is_expired, is_foreign, caller_of, accept, verify_parts,
  three_parts, verify, HeaderMap, bearer, enforcing, caller, is_open, Outcome, run, reject, outcome,
  require_auth,
}
use opengroupware.Auth.Lookup.{IfOk, IfOk-bind, lift-IfOk, check-IfOk, InCache, key_for-InCache}

module _ (o : Outside) (cfg : AuthConfig) where
  -- A token of three parts, whose header names EdDSA and a key in the cache, whose signature that key
  -- verifies over the first two parts, and whose claims are in date and of the configured issuer.
  pub record Authentic (token : List ℕ) (c : Caller) (s : AuthState) : Type 0 where
    pub h : List ℕ
    pub p : List ℕ
    pub sig : List ℕ
    pub parts : split b'.' token ≡ h ∷ p ∷ sig ∷ []
    pub header : Header
    pub header_eq : decode_header o h ≡ some header
    pub alg_eq : header.alg ≡ "EdDSA"
    pub key : List ℕ
    pub known : InCache o cfg header.kid key s
    pub signature : List ℕ
    pub signature_eq : o.decode sig ≡ some signature
    pub verified : o.verify_ed25519 key (h ++ b'.' ∷ p) signature ≡ true
    pub claims : Claims
    pub claims_eq : decode_claims o p ≡ some claims
    pub checked_at : ℕ
    pub in_date : (claims.exp ≡ pos 0) ⊎ (ltb_ℤ claims.exp (now_unix_at o checked_at) ≡ false)
    pub issuer_eq : (cfg.issuer ≡ none) ⊎ (cfg.issuer ≡ some claims.iss)
    pub caller_eq : c ≡ caller_of o claims

  -- What `accept` has seen of the claims.
  record Accepted (claims : Claims) (before : AuthState) (c : Caller) (s : AuthState) : Type 0 where
    state_eq : s ≡ read_on before
    in_date : (claims.exp ≡ pos 0) ⊎ (ltb_ℤ claims.exp (now_unix_at o before.tick) ≡ false)
    issuer_eq : (cfg.issuer ≡ none) ⊎ (cfg.issuer ≡ some claims.iss)
    caller_eq : c ≡ caller_of o claims

  not_expired :
      (now exp : ℤ) (c : Claims)
      → c.exp ≡ exp
      → is_expired now c ≡ false
      → (c.exp ≡ pos 0) ⊎ (ltb_ℤ c.exp now ≡ false)
  not_expired now (pos zero) c e h = inl e
  not_expired now (pos (suc n)) c e h = inr (ground (arith, e, h))
  not_expired now (negsuc n) c e h = inr (ground (arith, e, h))

  not_foreign :
      (expected : Option String) (c : Claims)
      → is_foreign expected c ≡ false
      → (expected ≡ none) ⊎ (expected ≡ some c.iss)
  not_foreign none c h = inl refl
  not_foreign (some i) c h = inr (ap some (sym ((str_iff c.iss i).0 (ground arith))))

  accept-Accepted :
      (claims : Claims) (s : AuthState) → IfOk (Accepted claims s) (accept o cfg claims s)
  unfolding accept
  accept-Accepted claims s = elim (Bool-cases (is_expired (now_unix_at o s.tick) claims)) [
    | inl late ↦ rw late tt
    | inr in_date ↦ elim (Bool-cases (is_foreign cfg.issuer claims)) [
      | inl foreign ↦ rw (in_date, foreign) tt
      | inr same ↦
          rw (in_date, same)
            (record {
              state_eq = refl;
              in_date = not_expired _ _ claims refl in_date;
              issuer_eq = not_foreign cfg.issuer claims same;
              caller_eq = refl;
            })
    ]
  ]

  authentic :
      (token h p sig : List ℕ)
      → split b'.' token ≡ h ∷ p ∷ sig ∷ []
      → (s : AuthState) → IfOk (Authentic token) (verify_parts o cfg h p sig s)
  unfolding verify_parts
  authentic token h p sig parts s =
      lift-IfOk (Authentic token) (decode_header o h) malformed _ s λ header header_eq.
        check-IfOk (Authentic token) (header.alg == "EdDSA") bad_signature _ s λ alg.
          IfOk-bind (InCache o cfg header.kid) (Authentic token) (key_for o cfg header.kid) _ s
            (key_for-InCache o cfg header.kid s)
            λ key s' known.
              lift-IfOk (Authentic token) (o.decode sig) malformed _ s' λ signature signature_eq.
                check-IfOk (Authentic token) (o.verify_ed25519 key (h ++ b'.' ∷ p) signature)
                  bad_signature _ s'
                  λ verified.
                    lift-IfOk (Authentic token) (decode_claims o p) malformed _ s'
                      λ claims claims_eq.
                        weaken (accept o cfg claims s') (accept-Accepted claims s') λ c s'' a.
                          record {
                            h = h;
                            p = p;
                            sig = sig;
                            parts = parts;
                            header = header;
                            header_eq = header_eq;
                            alg_eq = (str_iff _ _).0 alg;
                            key = key;
                            known = rw a.state_eq (later known);
                            signature = signature;
                            signature_eq = signature_eq;
                            verified = verified;
                            claims = claims;
                            claims_eq = claims_eq;
                            checked_at = s'.tick;
                            in_date = a.in_date;
                            issuer_eq = a.issuer_eq;
                            caller_eq = a.caller_eq;
                          }
    where
      weaken :
          {P : Caller → AuthState → Type 0}
          → (r : Result AuthError Caller × AuthState) → IfOk P r
          → ((c : Caller) (s' : AuthState) → P c s' → Authentic token c s')
          → IfOk (Authentic token) r
      weaken (ok c, s') h k = k c s' h
      weaken (err e, s') h k = tt

      later :
          {kid : String} {key : List ℕ} {s' : AuthState}
          → InCache o cfg kid key s'
          → InCache o cfg kid key (read_on s')
      later known = record {
        keys = known.keys;
        read_at = known.read_at;
        cache_eq = known.cache_eq;
        key_eq = known.key_eq;
        fresh = known.fresh;
      }

  -- A token that is accepted is authentic: its signature holds under a key of the cache, over exactly
  -- the two parts whose claims are then believed.
  pub verify-Authentic :
      (token : List ℕ) (s : AuthState) → IfOk (Authentic token) (verify o cfg token s)
  unfolding verify
  verify-Authentic token s = go (split b'.' token) refl
    where
      go :
          (parts : List (List ℕ))
          → split b'.' token ≡ parts
          → IfOk (Authentic token) (three_parts o cfg parts s)
      go [] e = tt
      go (h ∷ []) e = tt
      go (h ∷ p ∷ []) e = tt
      go (h ∷ p ∷ sig ∷ []) e = authentic token h p sig e s
      go (h ∷ p ∷ sig ∷ x ∷ xs) e = tt

  -- How a request got past the middleware.
  abbrev pub Admitted : String → HeaderMap → Option Caller → AuthState → Type 0
  Admitted path headers none s = is_open path ≡ true
  Admitted path headers (some c) s =
      (token : List ℕ) × (bearer headers ≡ some token) × Authentic token c s

  -- A handler that runs was admitted; any other request is answered with 401.
  abbrev pub IsGuarded : String → HeaderMap → Outcome × AuthState → Type 0
  IsGuarded path headers (run c, s) = Admitted path headers c s
  IsGuarded path headers (reject status, s) = status ≡ 401

-- With a JWKS URL configured, a request runs its handler only on the two open paths, or with the
-- caller of an authentic bearer token; every other request is answered with 401.
pub require_auth-IsGuarded :
    (o : Outside) (cfg : AuthConfig) (path : String) (headers : HeaderMap) (s : AuthState)
    → enforcing cfg ≡ true
    → IsGuarded o cfg path headers (require_auth o cfg path headers s)
unfolding require_auth caller
require_auth-IsGuarded o cfg path headers s on = elim (Bool-cases (is_open path)) [
  | inl open_path ↦ rw open_path open_path
  | inr guarded ↦ rw (guarded, on) (sent (bearer headers) refl)
]
  where
    checked :
        (token : List ℕ)
        → bearer headers ≡ some token
        → (r : Result AuthError Caller × AuthState) → IfOk (Authentic o cfg token) r
        → IsGuarded o cfg path headers (outcome r)
    checked token e (ok c, s') h = (token, e, h)
    checked token e (err x, s') h = refl

    sent :
        (found : Option (List ℕ))
        → bearer headers ≡ found
        → IsGuarded o cfg path headers
            (outcome ((lift (ok_or found missing_token) >>= verify o cfg) s))
    sent none e = refl
    sent (some token) e = checked token e (verify o cfg token s) (verify-Authentic o cfg token s)
