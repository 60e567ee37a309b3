-- ===== src/Auth/MockTests.antt =====
-- A mock whose texts are unary, and a verifier that reads them.
use opengroupware.Prelude.{
  ℕ, zero, suc, ◌+◌, String, ◌≡◌, ◌∙◌, refl, ap, Bool, true, false, Option, none, some, List, [],
  ◌∷◌, pos, inr, Result, ok, ◌&&◌, ◌==◌, nat_eq, string_eq, any, arith, if◌then◌else◌,
}
use opengroupware.Prelude.Texts.{codes}
use opengroupware.Prelude.Decimal.{◌⊕◌}
use opengroupware.Prelude.Splitting.{has}
use opengroupware.Admin.Emails.{codes-append}
use opengroupware.Auth.Outside.{now_unix, Outside, AuthConfig, AuthState, JwkSet}
use opengroupware.Auth.Verify.{verify}
use opengroupware.Auth.Json.{get, header_of, claims_of, jwk_of, jwks_of, jwk_set_of}
use opengroupware.Auth.Mock.{Signer, MockIdp, new, jwks_json, add_i64, payload_value, mint}
use opengroupware.Auth.RoundTrip.{Agrees, minted, served_key, verify-mint}

unary : ℕ → String → String
unary zero rest = "b" ⊕ rest
unary (suc n) rest = "a" ⊕ unary n rest

encode : List ℕ → String
unfolding unary
encode [] = ""
encode (n ∷ ns) = unary n (encode ns)

abbrev and_then_byte : ℕ → Option (List ℕ) → Option (List ℕ)
and_then_byte n none = none
and_then_byte n (some ns) = some (n ∷ ns)

decode_from : ℕ → List ℕ → Option (List ℕ)
decode_from n [] = some []
decode_from n (c ∷ cs) =
    let more = decode_from (suc n) cs in
    let rest = decode_from 0 cs in if c == b'a' then more else and_then_byte n rest

decode-unary :
    (k n : ℕ) (s : String) (ns : List ℕ)
    → decode_from 0 (codes s) ≡ some ns
    → decode_from k (codes (unary n s)) ≡ some ((k + n) ∷ ns)
unfolding decode_from unary
decode-unary k zero s ns h = rw (codes-append "b" s, h) (ap (λ m. some (m ∷ ns)) (omega arith))
decode-unary k (suc n) s ns h =
    rw (codes-append "a" (unary n s), decode-unary (suc k) n s ns h)
      (ap (λ m. some (m ∷ ns)) (omega arith))

decode-encode : (ns : List ℕ) → decode_from 0 (codes (encode ns)) ≡ some ns
unfolding encode decode_from
decode-encode [] = refl
decode-encode (n ∷ ns) =
    decode-unary 0 n (encode ns) ns (decode-encode ns) ∙ ap (λ m. some (m ∷ ns)) (omega arith)

unary-dotless :
    (n : ℕ) (s : String) → has b'.' (codes s) ≡ false → has b'.' (codes (unary n s)) ≡ false
unfolding unary any
unary-dotless zero s h = rw (codes-append "b" s) (ground (arith, h))
unary-dotless (suc n) s h = rw (codes-append "a" (unary n s)) (ground (arith, unary-dotless n s h))

encode-dotless : (ns : List ℕ) → has b'.' (codes (encode ns)) ≡ false
unfolding encode any
encode-dotless [] = refl
encode-dotless (n ∷ ns) = unary-dotless n (encode ns) (encode-dotless ns)

abbrev signer : Signer
signer = record { encode = encode; to_string = λ v. []; public_key = 7 ∷ []; sign = λ m. m }

abbrev mock : MockIdp
mock = new signer "ci-kid" "https://idam.example.com"

abbrev payload_tenant : String
payload_tenant = "11111111-1111-1111-1111-111111111111"

-- A signature is right when it is the message.
all_same : List ℕ → List ℕ → Bool
all_same [] [] = true
all_same (x ∷ xs) (y ∷ ys) = x == y && all_same xs ys
all_same _ _ = false

all_same_refl : (m : List ℕ) → all_same m m ≡ true
unfolding all_same
all_same_refl [] = refl
all_same_refl (x ∷ xs) = ground (arith, all_same_refl xs)

abbrev outside : Outside
outside = record {
  decode = decode_from 0;
  header_from_slice = λ _. some (record { alg = "EdDSA"; kid = "ci-kid" });
  claims_from_slice =
      λ _. some (minted mock (pos 1000) "client:ci" payload_tenant ("admin" ∷ []) (pos 300));
  verify_ed25519 = λ key message signature. all_same message signature;
  parse_uuid = λ _. some 1;
  get_jwks = λ n url. ok (served_key mock ∷ []);
  instant = λ n. n;
  since_epoch = λ n. some (1000 + n);
}

abbrev config : AuthConfig
config = record {
  jwks_url = some "http://127.0.0.1:4000/.well-known/jwks.json";
  issuer = some "https://idam.example.com";
  cache_ttl = 600;
}

abbrev empty : AuthState
empty = record { cache = none; tick = 0 }

outside-Agrees :
    Agrees outside mock
      (payload_value mock (pos 1000) "client:ci" payload_tenant ("admin" ∷ []) (pos 300))
unfolding header_of claims_of get payload_value
outside-Agrees = record {
  decode-encode = decode-encode;
  no_dot = encode-dotless;
  header_read = refl;
  claims_read = refl;
  verified = all_same_refl;
}

some_set :
    (x y : JwkSet)
    → ◌≡◌ {A = Option JwkSet} (some x) (some y)
    → ◌≡◌ {A = Result String JwkSet} (ok x) (ok y)
some_set x y e = ground arith

verify-mint_example :
    (verify outside config
      (mint mock (pos 1000) "client:ci" payload_tenant ("admin" ∷ []) (pos 300))
      empty).0
    ≡ ok (record { subject = "client:ci"; tenant_id = some 1; roles = "admin" ∷ [] })
unfolding now_unix jwk_set_of jwks_of jwk_of get jwks_json add_i64
verify-mint_example =
    verify-mint outside config mock "http://127.0.0.1:4000/.well-known/jwks.json" empty (pos 1000)
      "client:ci" payload_tenant ("admin" ∷ []) (pos 300) outside-Agrees refl (inr refl) refl
      (λ set e. some_set (served_key mock ∷ []) set e) refl refl
