-- ===== src/Auth/Json.antt =====
-- The `serde::Deserialize` derives of crates/og-auth/src/lib.rs: `JwkSet`, `Jwk`, `Header`, `Claims` and
-- `Sx` from a `serde_json::Value`, by their fields and their `#[serde(default)]` attributes. An unknown
-- field is ignored. Only the form of a struct as an object is read: serde also takes its fields in their
-- order from an array, which no issuer of tokens writes.
use opengroupware.Prelude.{
  String, Option, none, some, List, [], ◌∷◌, ℤ, pos, ◌==◌, string_eq, if◌then◌else◌,
}
use opengroupware.Db.Audit.{Value, null, int, text, arr, obj, Values, nil, cons, Fields, end, field}
use opengroupware.Auth.Outside.{Jwk, JwkSet, Header, Claims, Sx}

module _ {A B : Type 0} where
  infixl 5 ◌>>=◌
  abbrev ◌>>=◌ : Option A → (A → Option B) → Option B
  ◌>>=◌ none f = none
  ◌>>=◌ (some a) f = f a

-- The member of an object.
unfoldable pub get : String → Fields → Option Value
get name end = none
get name (field key v rest) = let later = get name rest in if key == name then some v else later

-- `String`
abbrev pub as_text : Value → Option String
as_text (text s) = some s
as_text _ = none

-- `i64`
abbrev pub as_int : Value → Option ℤ
as_int (int n) = some n
as_int _ = none

-- `Vec<String>`
abbrev and_text : Value → Option (List String) → Option (List String)
and_text (text s) (some rest) = some (s ∷ rest)
and_text _ _ = none

abbrev pub texts_of : Values → Option (List String)
texts_of nil = some []
texts_of (cons v vs) = let rest = texts_of vs in and_text v rest

abbrev pub as_texts : Value → Option (List String)
as_texts (arr vs) = texts_of vs
as_texts _ = none

-- A field without a default, and one with it.
module _ {A : Type 0} where
  abbrev required : (Value → Option A) → Option Value → Option A
  required f none = none
  required f (some v) = f v

  abbrev or_default : A → (Value → Option A) → Option Value → Option A
  or_default default f none = some default
  or_default default f (some v) = f v

  abbrev some_of : Option A → Option (Option A)
  some_of none = none
  some_of (some a) = some (some a)

  -- `Option<T>`, where `null` is `None`.
  abbrev optional : (Value → Option A) → Option Value → Option (Option A)
  optional f none = some none
  optional f (some null) = some none
  optional f (some v) = some_of (f v)

unfoldable pub header_of : Value → Option Header
unfolding get
header_of (obj fs) = do
  alg ← required as_text (get "alg" fs)
  kid ← required as_text (get "kid" fs)
  some (record { alg = alg; kid = kid })
header_of _ = none

abbrev pub sx_of : Value → Option Sx
sx_of (obj fs) = do roles ← or_default [] as_texts (get "roles" fs); some (record { roles = roles })
sx_of _ = none

unfoldable pub claims_of : Value → Option Claims
unfolding get
claims_of (obj fs) = do
  sub ← or_default "" as_text (get "sub" fs)
  exp ← or_default (pos 0) as_int (get "exp" fs)
  iss ← or_default "" as_text (get "iss" fs)
  tenant_id ← optional as_text (get "tenant_id" fs)
  sx ← optional sx_of (get "sx" fs)
  some (record { sub = sub; exp = exp; iss = iss; tenant_id = tenant_id; sx = sx })
claims_of _ = none

unfoldable pub jwk_of : Value → Option Jwk
unfolding get
jwk_of (obj fs) = do
  kid ← required as_text (get "kid" fs)
  x ← required as_text (get "x" fs)
  kty ← or_default "" as_text (get "kty" fs)
  crv ← or_default "" as_text (get "crv" fs)
  some (record { kid = kid; x = x; kty = kty; crv = crv })
jwk_of _ = none

abbrev and_jwk : Option Jwk → Option JwkSet → Option JwkSet
and_jwk (some k) (some rest) = some (k ∷ rest)
and_jwk _ _ = none

unfoldable pub jwks_of : Values → Option JwkSet
unfolding jwk_of
jwks_of nil = some []
jwks_of (cons v vs) = let rest = jwks_of vs in and_jwk (jwk_of v) rest

abbrev jwks_in : Value → Option JwkSet
jwks_in (arr vs) = jwks_of vs
jwks_in _ = none

unfoldable pub jwk_set_of : Value → Option JwkSet
unfolding jwks_of get
jwk_set_of (obj fs) = required jwks_in (get "keys" fs)
jwk_set_of _ = none
