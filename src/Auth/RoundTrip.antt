-- ===== src/Auth/RoundTrip.antt =====
-- A token of Auth/Mock through `verify`, with the key set of the mock fetched on the way.
use opengroupware.Prelude.{
  ℕ, suc, ◌-◌, String, ◌≡◌, refl, true, false, none, some, List, [], ◌∷◌, ◌++◌, ℤ, ltb, ltb_ℤ, ok,
  nat_eq, string_eq, str_iff, arith, find?, select, ◌⊎◌, inl, inr,
}
use opengroupware.Prelude.Texts.{codes}
use opengroupware.Prelude.Splitting.{has, split-three}
use opengroupware.Db.Audit.{Value}
use opengroupware.Auth.Outside.{now_unix_at, Jwk, JwkSet, Claims, Outside, AuthConfig, AuthState}
use opengroupware.Auth.Keys.{
  key_for, cached, refresh, parse_jwks, parse_from, add_jwk, insert_key, get_key,
}
use opengroupware.Auth.Verify.{
  verify, verify_parts, accept, caller_of, is_foreign, is_expired, decode_header, decode_claims,
}
use opengroupware.Auth.Json.{get, texts_of, header_of, claims_of, jwk_of, jwks_of, jwk_set_of}
use opengroupware.Auth.Mock.{
  MockIdp, jwks_json, add_i64, text_values, header_value, payload_value, mint,
}

header_of-header_value :
    (idp : MockIdp) → header_of (header_value idp) ≡ some (record { alg = "EdDSA"; kid = idp.kid })
unfolding header_of get
header_of-header_value idp = refl

texts_of-text_values : (roles : List String) → texts_of (text_values roles) ≡ some roles
texts_of-text_values [] = refl
texts_of-text_values (r ∷ rs) = rw (texts_of-text_values rs) refl

-- The claims of a minted token.
abbrev pub minted : MockIdp → ℤ → String → String → List String → ℤ → Claims
minted idp now subject tenant_id roles ttl_secs = record {
  sub = subject;
  exp = add_i64 now ttl_secs;
  iss = idp.issuer;
  tenant_id = some tenant_id;
  sx = some (record { roles = roles });
}

claims_of-payload_value :
    (idp : MockIdp) (now : ℤ) (subject tenant_id : String) (roles : List String) (ttl_secs : ℤ)
    → claims_of (payload_value idp now subject tenant_id roles ttl_secs)
      ≡ some (minted idp now subject tenant_id roles ttl_secs)
unfolding claims_of get payload_value
claims_of-payload_value idp now subject tenant_id roles ttl_secs =
    rw (texts_of-text_values roles) refl

-- The key of a mock, as its document lists it.
abbrev pub served_key : MockIdp → Jwk
served_key idp = record {
  kid = idp.kid;
  x = idp.keypair.encode idp.keypair.public_key;
  kty = "OKP";
  crv = "Ed25519";
}

-- The document of the mock is a key set of one key, with the casing that verifiers expect.
jwk_set_of-jwks_json : (idp : MockIdp) → jwk_set_of (jwks_json idp) ≡ some (served_key idp ∷ [])
unfolding jwk_set_of jwks_of jwk_of get jwks_json
jwk_set_of-jwks_json idp = refl

-- What is documented of the crates: base64 decodes what it encodes, to texts without a dot; the two
-- values of a token that are printed are read back as they are; and a signature verifies.
pub record Agrees (o : Outside) (idp : MockIdp) (payload : Value) : Type 0 where
  pub decode-encode : (bytes : List ℕ) → o.decode (codes (idp.keypair.encode bytes)) ≡ some bytes
  pub no_dot : (bytes : List ℕ) → has b'.' (codes (idp.keypair.encode bytes)) ≡ false
  pub header_read :
      o.header_from_slice (idp.keypair.to_string (header_value idp)) ≡ header_of (header_value idp)
  pub claims_read : o.claims_from_slice (idp.keypair.to_string payload) ≡ claims_of payload
  pub verified :
      (m : List ℕ) → o.verify_ed25519 idp.keypair.public_key m (idp.keypair.sign m) ≡ true

abbrev header_part : MockIdp → List ℕ
header_part idp = codes (idp.keypair.encode (idp.keypair.to_string (header_value idp)))

module _ (o : Outside) (cfg : AuthConfig) (idp : MockIdp) (payload : Value)
    (agrees : Agrees o idp payload) where
  get_key-inserted : (kid : String) (raw : List ℕ) → get_key kid (insert_key kid raw []) ≡ some raw
  unfolding get_key insert_key find? select
  get_key-inserted kid raw = ground (arith, (str_iff kid kid).1 refl)

  abbrev after_fetch : AuthState → AuthState
  after_fetch s = record {
    cache = some (record {
      keys = insert_key idp.kid idp.keypair.public_key [];
      fetched_at = o.instant (suc s.tick);
    });
    tick = suc (suc (suc s.tick));
  }

  -- The key of the mock is found after its document is fetched, three readings later.
  key_for-served :
      (url : String) (s : AuthState)
      → cfg.jwks_url ≡ some url
      → s.cache ≡ none
      → o.get_jwks s.tick url ≡ ok (served_key idp ∷ [])
      → ltb cfg.cache_ttl (o.instant (suc (suc s.tick)) - o.instant (suc s.tick)) ≡ false
      → key_for o cfg idp.kid s ≡ (ok idp.keypair.public_key, after_fetch s)
  unfolding key_for cached refresh parse_jwks parse_from add_jwk
  key_for-served url s on empty served fresh =
      rw
        (
          empty,
          on,
          served,
          agrees.decode-encode idp.keypair.public_key,
          fresh,
          get_key-inserted idp.kid idp.keypair.public_key,
        )
        refl

  is_foreign-own :
      (c : Claims)
      → (cfg.issuer ≡ none) ⊎ (cfg.issuer ≡ some c.iss)
      → is_foreign cfg.issuer c ≡ false
  is_foreign-own c (inl none_asked) = rw none_asked refl
  is_foreign-own c (inr own) = rw own (ground (arith, (str_iff c.iss c.iss).1 refl))

  accept-valid :
      (c : Claims) (s : AuthState)
      → ltb_ℤ c.exp (now_unix_at o s.tick) ≡ false
      → (cfg.issuer ≡ none) ⊎ (cfg.issuer ≡ some c.iss)
      → (accept o cfg c s).0 ≡ ok (caller_of o c)
  unfolding accept
  accept-valid c s in_date own =
      let foreign = is_foreign-own c own in
      let late : is_expired (now_unix_at o s.tick) c ≡ false = ground (arith, in_date) in
      rw (late, foreign) refl

  -- The parts of a minted token, once the key is known.
  verify_parts-minted :
      (url : String) (s : AuthState) (p : List ℕ) (c : Claims)
      → p ≡ codes (idp.keypair.encode (idp.keypair.to_string payload))
      → claims_of payload ≡ some c
      → cfg.jwks_url ≡ some url
      → s.cache ≡ none
      → o.get_jwks s.tick url ≡ ok (served_key idp ∷ [])
      → ltb cfg.cache_ttl (o.instant (suc (suc s.tick)) - o.instant (suc s.tick)) ≡ false
      → verify_parts o cfg
          (header_part idp)
          p
          (codes (idp.keypair.encode (idp.keypair.sign (header_part idp ++ b'.' ∷ p))))
          s
        ≡ accept o cfg c (after_fetch s)
  unfolding verify_parts
  verify_parts-minted url s p c p_eq claims_eq on empty served fresh =
      let k = idp.keypair in
      let header : decode_header o (header_part idp)
          ≡ some (record { alg = "EdDSA"; kid = idp.kid }) =
        rw (agrees.decode-encode (k.to_string (header_value idp)), agrees.header_read)
          (header_of-header_value idp) in
      let claims : decode_claims o p ≡ some c =
        rw (p_eq, agrees.decode-encode (k.to_string payload), agrees.claims_read) claims_eq in
      rw
        (
          header,
          key_for-served url s on empty served fresh,
          agrees.decode-encode (k.sign (header_part idp ++ b'.' ∷ p)),
          agrees.verified (header_part idp ++ b'.' ∷ p),
          claims,
        )
        refl

-- A token that the mock mints is accepted by a verifier that has no keys yet, fetches the document of
-- the mock and finds it still in date: the caller is the subject, tenant and roles that were minted. The
-- crates are as documented, the issuer is the mock's or not asked for, and the sum of the time of
-- minting and the lifetime has not passed when the clock is read.
pub verify-mint :
    (o : Outside) (cfg : AuthConfig) (idp : MockIdp) (url : String) (s : AuthState) (now : ℤ)
    (subject tenant_id : String) (roles : List String) (ttl_secs : ℤ)
    → Agrees o idp (payload_value idp now subject tenant_id roles ttl_secs)
    → cfg.jwks_url ≡ some url
    → (cfg.issuer ≡ none) ⊎ (cfg.issuer ≡ some idp.issuer)
    → s.cache ≡ none
    → ((set : JwkSet) → jwk_set_of (jwks_json idp) ≡ some set → o.get_jwks s.tick url ≡ ok set)
    → ltb cfg.cache_ttl (o.instant (suc (suc s.tick)) - o.instant (suc s.tick)) ≡ false
    → ltb_ℤ (add_i64 now ttl_secs) (now_unix_at o (suc (suc (suc s.tick)))) ≡ false
    → (verify o cfg (mint idp now subject tenant_id roles ttl_secs) s).0
      ≡ ok (record { subject = subject; tenant_id = o.parse_uuid tenant_id; roles = roles })
unfolding verify mint
verify-mint o cfg idp url s now subject tenant_id roles ttl_secs agrees on own empty served fresh
      in_date =
    let k = idp.keypair in
    let payload = payload_value idp now subject tenant_id roles ttl_secs in
    let p = codes (k.encode (k.to_string payload)) in
    let signature = k.sign (header_part idp ++ b'.' ∷ p) in
    rw
      (
        split-three b'.' (header_part idp) p (codes (k.encode signature)) (agrees.no_dot _)
            (agrees.no_dot _) (agrees.no_dot _),
        verify_parts-minted o cfg idp payload agrees url s p
            (minted idp now subject tenant_id roles ttl_secs) refl
            (claims_of-payload_value idp now subject tenant_id roles ttl_secs) on empty
            (served _ (jwk_set_of-jwks_json idp)) fresh,
      )
      (accept-valid o cfg idp payload agrees (minted idp now subject tenant_id roles ttl_secs)
        (after_fetch o cfg idp payload agrees s) in_date own)
