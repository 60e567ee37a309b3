-- ===== src/Auth/Cache.antt =====
-- Where the keys of the cache come from, and when the JWKS is asked for.
use opengroupware.Prelude.{
  ℕ, String, ◌≡◌, refl, false, not, Option, none, some, List, [], ◌∷◌, Result, ok, err, ok_or, ◌==◌,
  string_eq, str_iff, All, All-select, ◌⊎◌, inl, inr, Bool-cases, Option-cases,
}
use opengroupware.Prelude.Texts.{codes}
use opengroupware.Auth.Outside.{
  Jwk, JwkSet, Outside, AuthConfig, KeyMap, CachedKeys, AuthState, AuthError, unknown_key, read_on,
  ◌>>=◌, ◌>>◌, lift,
}
use opengroupware.Auth.Keys.{
  insert_key, get_key, add_jwk, parse_from, parse_jwks, is_stale, in_cache, cached, store, fetch,
  refresh, or_refresh, key_for,
}

module _ (o : Outside) where
  -- The entry is what this member of a JWKS stands for.
  abbrev pub IsKeyOf : Jwk → String × List ℕ → Type 0
  IsKeyOf jwk (kid, raw) =
      (jwk.kid ≡ kid)
      × (jwk.kty ≡ "OKP")
      × (jwk.crv ≡ "Ed25519")
      × (o.decode (codes jwk.x) ≡ some raw)

  abbrev pub IsFrom : JwkSet → String × List ℕ → Type 0
  IsFrom [] k = ⊥
  IsFrom (jwk ∷ set) k = IsKeyOf jwk k ⊎ IsFrom set k

  add_jwk-All :
      (P : String × List ℕ → Type 0) (jwk : Jwk) (keys : KeyMap)
      → All P keys
      → ((k : String × List ℕ) → IsKeyOf jwk k → P k)
      → All P (add_jwk o jwk keys)
  unfolding add_jwk insert_key
  add_jwk-All P jwk keys h k = elim (Bool-cases (jwk.kty == "OKP")) [
    | inr other ↦ rw other h
    | inl okp ↦ elim (Bool-cases (jwk.crv == "Ed25519")) [
      | inr other ↦ rw (okp, other) h
      | inl curve ↦ elim (Option-cases (o.decode (codes jwk.x))) [
        | inl bad ↦ rw (okp, curve, bad) h
        | inr (raw, good) ↦
            rw (okp, curve, good)
              (
                k (jwk.kid, raw) (refl, (str_iff _ _).0 okp, (str_iff _ _).0 curve, good),
                All-select P (λ (x : String × List ℕ). not (x.0 == jwk.kid)) keys h,
              )
      ]
    ]
  ]

  parse_from-All :
      (P : String × List ℕ → Type 0) (set : JwkSet) (keys : KeyMap)
      → All P keys
      → ((k : String × List ℕ) → IsFrom set k → P k)
      → All P (parse_from o keys set)
  unfolding parse_from
  parse_from-All P [] keys h k = h
  parse_from-All P (jwk ∷ set) keys h k =
      parse_from-All P set (add_jwk o jwk keys) (add_jwk-All P jwk keys h λ x m. k x (inl m))
        λ x m. k x (inr m)

  -- Every key that a JWKS is parsed to is one of its members, of type OKP and curve Ed25519.
  pub parse_jwks-IsFrom : (set : JwkSet) → All (IsFrom set) (parse_jwks o set)
  unfolding parse_jwks
  parse_jwks-IsFrom set = parse_from-All (IsFrom set) set [] tt λ k m. m

module _ (o : Outside) (cfg : AuthConfig) where
  -- All keys of the cache are from one document that the configured URL has served.
  abbrev pub IsServed : Option CachedKeys → Type 0
  IsServed none = Unit
  IsServed (some c) =
      (url : String) × (cfg.jwks_url ≡ some url)
      × (n : ℕ) × (set : JwkSet) × (o.get_jwks n url ≡ ok set)
      × All (IsFrom o set) c.keys

  cached-cache : (kid : String) (s : AuthState) → (cached o cfg kid s).1.cache ≡ s.cache
  unfolding cached
  cached-cache kid s = go s.cache
    where
      go : (c : Option CachedKeys) → (in_cache o cfg kid c s).1.cache ≡ s.cache
      go none = refl
      go (some c) = refl

  refresh-IsServed : (s : AuthState) → IsServed s.cache → IsServed (refresh o cfg s).1.cache
  unfolding refresh
  refresh-IsServed s h = go cfg.jwks_url refl
    where
      stored :
          (url : String)
          → cfg.jwks_url ≡ some url
          → (r : Result String JwkSet) → o.get_jwks s.tick url ≡ r
          → IsServed (store o r s).1.cache
      stored url e (err x) got = h
      stored url e (ok set) got = (url, e, s.tick, set, got, parse_jwks-IsFrom o set)

      go : (u : Option String) → cfg.jwks_url ≡ u → IsServed (fetch o u s).1.cache
      go none e = h
      go (some url) e = stored url e (o.get_jwks s.tick url) refl

  -- Looking a key up keeps the cache to keys that the configured URL has served.
  pub key_for-IsServed :
      (kid : String) (s : AuthState) → IsServed s.cache → IsServed (key_for o cfg kid s).1.cache
  unfolding key_for
  key_for-IsServed kid s h = first (cached o cfg kid s) (rw (cached-cache kid s) h)
    where
      found :
          (r : Result AuthError (Option (List ℕ)) × AuthState)
          → IsServed r.1.cache
          → IsServed (((λ (_ : AuthState). r) >>= λ k. lift (ok_or k unknown_key)) s).1.cache
      found (ok k, s') h = h
      found (err e, s') h = h

      second :
          (r : Result AuthError Unit × AuthState)
          → IsServed r.1.cache
          → IsServed
              ((((λ (_ : AuthState). r) >> cached o cfg kid) >>= λ k. lift (ok_or k unknown_key))
                s).1.cache
      second (ok a, s') h = found (cached o cfg kid s') (rw (cached-cache kid s') h)
      second (err e, s') h = h

      first :
          (r : Result AuthError (Option (List ℕ)) × AuthState)
          → IsServed r.1.cache
          → IsServed (((λ (_ : AuthState). r) >>= or_refresh o cfg kid) s).1.cache
      first (ok (some k), s') h = h
      first (ok none, s') h = second (refresh o cfg s') (refresh-IsServed s' h)
      first (err e, s') h = h

  -- While the cache is in date, a key that it holds is found with one reading of the clock, and
  -- without asking for the JWKS.
  key_for-hit :
      (kid : String) (key : List ℕ) (c : CachedKeys) (s : AuthState)
      → s.cache ≡ some c
      → is_stale cfg (o.instant s.tick) c ≡ false
      → get_key kid c.keys ≡ some key
      → key_for o cfg kid s ≡ (ok key, read_on s)
  unfolding key_for cached
  key_for-hit kid key c s held fresh found = rw (held, fresh, found) refl
