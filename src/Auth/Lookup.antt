-- ===== src/Auth/Lookup.antt =====
-- Results that hold on success, and what a lookup of a signing key finds.
use opengroupware.Prelude.{
  ℕ, String, ◌≡◌, refl, Bool, true, false, Option, none, some, List, Result, ok, err, ok_or,
  string_eq, inl, inr, Bool-cases,
}
use opengroupware.Auth.Outside.{
  Outside, AuthError, unknown_key, AuthConfig, CachedKeys, AuthState, AuthIo, read_on, lift, ◌>>=◌,
  ◌>>◌,
}
use opengroupware.Auth.Keys.{is_stale, get_key, cached, in_cache, refresh, or_refresh, key_for}
use opengroupware.Auth.Verify.{check}

-- If it succeeds, its value and its state are as `Q` says.
abbrev pub IfOk : {A : Type 0} → (A → AuthState → Type 0) → Result AuthError A × AuthState → Type 0
IfOk Q (ok a, s) = Q a s
IfOk Q (err e, s) = Unit

module _ {A B : Type 0} (P : A → AuthState → Type 0) (Q : B → AuthState → Type 0) where
  pub IfOk-bind :
      (m : AuthIo A) (f : A → AuthIo B) (s : AuthState)
      → IfOk P (m s)
      → ((a : A) (s' : AuthState) → P a s' → IfOk Q (f a s'))
      → IfOk Q ((m >>= f) s)
  IfOk-bind m f s h k = go (m s) h
    where
      go :
          (r : Result AuthError A × AuthState)
          → IfOk P r
          → IfOk Q (((λ (_ : AuthState). r) >>= f) s)
      go (ok a, s') h = k a s' h
      go (err e, s') h = tt

module _ {A B : Type 0} (Q : B → AuthState → Type 0) where
  pub lift-IfOk :
      (o : Option A) (e : AuthError) (f : A → AuthIo B) (s : AuthState)
      → ((a : A) → o ≡ some a → IfOk Q (f a s))
      → IfOk Q ((lift (ok_or o e) >>= f) s)
  lift-IfOk none e f s h = tt
  lift-IfOk (some a) e f s h = h a refl

module _ {B : Type 0} (Q : B → AuthState → Type 0) where
  pub check-IfOk :
      (b : Bool) (e : AuthError) (m : AuthIo B) (s : AuthState)
      → (b ≡ true → IfOk Q (m s))
      → IfOk Q ((lift (check b e) >> m) s)
  check-IfOk true e m s h = h refl
  check-IfOk false e m s h = tt

module _ (o : Outside) (cfg : AuthConfig) where
  -- The cache holds this key for this identifier, and was in date when the clock was read.
  pub record InCache (kid : String) (key : List ℕ) (s : AuthState) : Type 0 where
    pub keys : CachedKeys
    pub read_at : ℕ
    pub cache_eq : s.cache ≡ some keys
    pub key_eq : get_key kid keys.keys ≡ some key
    pub fresh : is_stale cfg (o.instant read_at) keys ≡ false

  abbrev Found : String → Option (List ℕ) → AuthState → Type 0
  Found kid none s = Unit
  Found kid (some key) s = InCache kid key s

  cached-Found : (kid : String) (s : AuthState) → IfOk (Found kid) (cached o cfg kid s)
  unfolding cached
  cached-Found kid s = go s.cache refl
    where
      go : (c : Option CachedKeys) → s.cache ≡ c → IfOk (Found kid) (in_cache o cfg kid c s)
      go none e = tt
      go (some c) e = elim (Bool-cases (is_stale cfg (o.instant s.tick) c)) [
        | inl stale ↦ rw stale tt
        | inr fresh ↦ rw fresh (kept fresh (get_key kid c.keys) refl)
      ]
        where
          kept :
              is_stale cfg (o.instant s.tick) c ≡ false
              → (k : Option (List ℕ)) → get_key kid c.keys ≡ k
              → Found kid k (read_on s)
          kept fresh none ke = tt
          kept fresh (some key) ke = record {
            keys = c;
            read_at = s.tick;
            cache_eq = e;
            key_eq = ke;
            fresh = fresh;
          }

  some-InCache :
      (kid : String) (k : Option (List ℕ)) (s : AuthState)
      → Found kid k s
      → IfOk (InCache kid) (lift (ok_or k unknown_key) s)
  some-InCache kid none s h = tt
  some-InCache kid (some key) s h = h

  or_refresh-InCache :
      (kid : String) (k : Option (List ℕ)) (s : AuthState)
      → Found kid k s
      → IfOk (InCache kid) (or_refresh o cfg kid k s)
  or_refresh-InCache kid (some key) s h = h
  or_refresh-InCache kid none s h =
      IfOk-bind (Found kid) (InCache kid) (refresh o cfg >> cached o cfg kid)
        (λ k. lift (ok_or k unknown_key)) s
        (IfOk-bind (λ _ _. Unit) (Found kid) (refresh o cfg) (λ _. cached o cfg kid) s
          (anything (refresh o cfg s)) λ _ s' _. cached-Found kid s')
        (some-InCache kid)
    where
      anything : (r : Result AuthError Unit × AuthState) → IfOk (λ _ _. Unit) r
      anything (ok a, s') = tt
      anything (err e, s') = tt

  -- A key that is found is in the cache, and the cache is no older than its time to live.
  pub key_for-InCache : (kid : String) (s : AuthState) → IfOk (InCache kid) (key_for o cfg kid s)
  unfolding key_for
  key_for-InCache kid s =
      IfOk-bind (Found kid) (InCache kid) (cached o cfg kid) (or_refresh o cfg kid) s
        (cached-Found kid s) (or_refresh-InCache kid)
