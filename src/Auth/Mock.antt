-- ===== src/Auth/Mock.antt =====
-- `MockIdp` of crates/og-auth/src/mock.rs.
use opengroupware.Prelude.{
  ℕ, suc, ◌+◌, ◌-◌, ◌^◌, String, List, [], ◌∷◌, ◌++◌, ℤ, pos, negsuc, ltb, if◌then◌else◌,
}
use opengroupware.Prelude.Texts.{codes}
use opengroupware.Db.Audit.{Value, int, text, arr, obj, Values, nil, cons, end, field}

-- What the mock takes from other crates: encoding to unpadded URL-safe base64, the bytes of
-- `Value::to_string`, and an Ed25519 key pair's public key and signatures.
pub record Signer : Type 0 where
  pub encode : List ℕ → String
  pub to_string : Value → List ℕ
  pub public_key : List ℕ
  pub sign : List ℕ → List ℕ

pub record MockIdp : Type 0 where
  pub keypair : Signer
  pub kid : String
  pub issuer : String

-- `MockIdp::new`, with the key pair that it generates.
abbrev pub new : Signer → String → String → MockIdp
new keypair kid issuer = record { keypair = keypair; kid = kid; issuer = issuer }

unfoldable pub jwks_json : MockIdp → Value
jwks_json idp =
    let x = idp.keypair.encode idp.keypair.public_key in
    obj (
      field "keys"
        (arr (
          cons
            (obj (
              field "kty" (text "OKP") (
                field "crv" (text "Ed25519") (
                  field "use" (text "sig") (
                    field "alg" (text "EdDSA")
                      (field "kid" (text idp.kid) (field "x" (text x) end)))))))
            nil))
        end)

-- Addition of i64, which wraps around in a release build.
abbrev wrap_i64 : ℕ → ℤ
wrap_i64 n = if ltb n (2 ^ 63) then pos n else negsuc (2 ^ 64 - (n + 1))

abbrev sub_ℕ : ℕ → ℕ → ℤ
sub_ℕ a b = if ltb a b then negsuc (b - (a + 1)) else pos (a - b)

abbrev under_i64 : ℕ → ℤ
under_i64 n = if ltb n (2 ^ 63) then negsuc n else pos (2 ^ 64 - (n + 1))

unfoldable pub add_i64 : ℤ → ℤ → ℤ
add_i64 (pos a) (pos b) = wrap_i64 (a + b)
add_i64 (pos a) (negsuc b) = sub_ℕ a (suc b)
add_i64 (negsuc a) (pos b) = sub_ℕ b (suc a)
add_i64 (negsuc a) (negsuc b) = under_i64 (a + b + 1)

abbrev pub text_values : List String → Values
text_values [] = nil
text_values (r ∷ rs) = cons (text r) (text_values rs)

abbrev pub header_value : MockIdp → Value
header_value idp =
    obj (field "alg" (text "EdDSA") (field "typ" (text "at+jwt") (field "kid" (text idp.kid) end)))

unfoldable pub payload_value : MockIdp → ℤ → String → String → List String → ℤ → Value
unfolding add_i64
payload_value idp now subject tenant_id roles ttl_secs = obj (
    field "sub" (text subject) (
      field "iss" (text idp.issuer) (
        field "aud" (arr (cons (text "sesame-idam") nil)) (
          field "iat" (int now) (
            field "nbf" (int now) (
              field "exp" (int (add_i64 now ttl_secs)) (
                field "tenant_id" (text tenant_id)
                  (field "sx" (obj (field "roles" (arr (text_values roles)) end)) end))))))))

-- `MockIdp::mint`; `now` is what `now_unix` reads.
unfoldable pub mint : MockIdp → ℤ → String → String → List String → ℤ → List ℕ
unfolding payload_value
mint idp now subject tenant_id roles ttl_secs =
    let k = idp.keypair in
    let h = codes (k.encode (k.to_string (header_value idp))) in
    let p =
      codes (k.encode (k.to_string (payload_value idp now subject tenant_id roles ttl_secs))) in
    let signature = k.sign (h ++ b'.' ∷ p) in h ++ b'.' ∷ (p ++ b'.' ∷ codes (k.encode signature))
