-- ===== src/Wrappers/Tokens.antt =====
-- The tokens that the client of the identity service hands out.
use opengroupware.Prelude.{
  ℕ, ◌+◌, ◌*◌, ◌≤◌, suc, String, ◌≡◌, ◌≢◌, refl, true, Option, none, some, ℤ, pos, negsuc, Result,
  ok, err, ltb, ltb_ℤ, ◌<◌, ◌↔◌, ◌⊎◌, ◌==◌, nat_eq, string_eq, str_iff, Bool-cases, inl, inr, arith,
}
use opengroupware.Types.Provider.{ProviderError}
use opengroupware.Wrappers.Sesame.{
  SesameConfig, CachedToken, TokenResponse, Response, Remote, ClientState, tick_on, is_success,
  cached_token, ttl_secs, store_token, after_token, after_token_sent, token, token_request,
}

-- How long a token is kept: all but the last 60 seconds of its life, or a second.
abbrev Kept : ℤ → Type 0
Kept expires_in =
    ((n : ℕ) × (expires_in ≡ pos n) × (61 ≤ n) × (ttl_secs expires_in + 60 ≡ n))
    ⊎ ((ltb_ℤ expires_in (pos 61) ≡ true) × (ttl_secs expires_in ≡ 1))

ttl_secs-Kept : (expires_in : ℤ) → Kept expires_in
unfolding ttl_secs
ttl_secs-Kept (negsuc n) = inr (ground arith, ground arith)
ttl_secs-Kept (pos n) = elim (Bool-cases (ltb n 61)) [
  | inl short ↦ inr (ground (arith, short), ground (arith, short))
  | inr long ↦ inl (n, refl, ground (arith, long), ground (arith, long))
]

ttl_secs-positive : (expires_in : ℤ) → 1 ≤ ttl_secs expires_in
ttl_secs-positive expires_in = elim (ttl_secs-Kept expires_in) [
  | inl (n, _, long, e) ↦ omega arith
  | inr (_, e) ↦ omega arith
]

-- The cache is empty, or holds a token that is not empty.
abbrev pub IsReady : Option CachedToken → Type 0
IsReady none = Unit
IsReady (some c) = c.access_token ≢ ""

-- A token that is handed out is not empty, is the one in the cache, and was valid when the clock was
-- read for it; whatever happens, the cache is ready.
module _ (r : Remote) where
  abbrev pub IsIssued : Result ProviderError String × ClientState → Type 0
  IsIssued (ok t, s) =
      (c : CachedToken) × (now : ℕ) × (s.token ≡ some c)
      × (c.access_token ≡ t)
      × (t ≢ "")
      × (ltb (r.instant now) c.valid_until ≡ true)
  IsIssued (err e, s) = IsReady s.token

  fresh_after : (now : ℕ) (ttl : ℕ) → 1 ≤ ttl → ltb now (now + ttl * 1000000000) ≡ true
  fresh_after now ttl h = ground (arith, h)

  after_token-IsIssued :
      (body : Result String TokenResponse) (s : ClientState)
      → IsReady s.token
      → IsIssued (after_token r body s)
  unfolding store_token
  after_token-IsIssued (err e) s h = h
  after_token-IsIssued (ok body) s h = elim (Bool-cases (body.access_token == "")) [
    | inl empty ↦ rw empty h
    | inr full ↦ rw full (
      record {
        access_token = body.access_token;
        valid_until = r.instant s.tick + ttl_secs body.expires_in * 1000000000;
      },
      s.tick,
      refl,
      refl,
      λ e. ground (arith, full, (str_iff body.access_token "").1 e),
      fresh_after (r.instant s.tick) (ttl_secs body.expires_in) (ttl_secs-positive body.expires_in),
    )
  ]

  sent-IsIssued :
      (resp : Result String Response) (s : ClientState)
      → IsReady s.token
      → IsIssued (after_token_sent r resp s)
  sent-IsIssued (err e) s h = h
  sent-IsIssued (ok resp) s h = elim (Bool-cases (is_success resp.status)) [
    | inl success ↦ rw success (after_token-IsIssued (r.token_from resp.body) s h)
    | inr failure ↦ rw failure h
  ]

-- A token that is handed out is not empty, is the one that the cache then holds, and was valid when
-- the clock was read for it; after a failure the cache is empty or holds a token that is not empty.
-- The cache was so before.
pub token-IsIssued :
    (r : Remote) (cfg : SesameConfig) (s : ClientState)
    → IsReady s.token
    → IsIssued r (token r cfg s)
unfolding token cached_token
token-IsIssued r cfg s h = go s.token h
  where
    go :
        (c : Option CachedToken)
        → IsReady c
        → IsIssued r (token r cfg (record { token = c; tick = s.tick }))
    go none ready =
        let s' : ClientState = record { token = none; tick = s.tick } in
        sent-IsIssued r (r.send s.tick (token_request cfg)) (tick_on s') ready
    go (some c) ready =
        let s' : ClientState = record { token = some c; tick = s.tick } in
        elim (Bool-cases (ltb (r.instant s.tick) c.valid_until)) [
          | inl valid ↦ rw valid (c, s.tick, refl, refl, ready, valid)
          | inr stale ↦ rw stale (
              sent-IsIssued r (r.send (suc s.tick) (token_request cfg)) (tick_on (tick_on s'))
                ready)
        ]

-- It is the token of the cache, and the clock has not come to this time.
valid_until_iff :
    (r : Remote) (s : ClientState) (t : String) (until : ℕ)
    → s.token ≡ some (record { access_token = t; valid_until = until })
    → (cached_token r s ≡ some t) ↔ (r.instant s.tick < until)
unfolding cached_token
valid_until_iff r s t until e = ground (arith, e)

-- When the cache holds a token that was stored at the reading `s.tick` of the clock, another reading
-- hands it out exactly as long as more than 60 seconds of its life are left, where it was issued for
-- 61 seconds or more; and exactly within a second of being stored, where it was issued for less.
pub store_token-window :
    (r : Remote) (t : String) (expires_in : ℤ) (s s' : ClientState)
    → s'.token ≡ (store_token r t expires_in s).token
    → ((n : ℕ) × (expires_in ≡ pos n)
        × (61 ≤ n)
        × ((cached_token r s' ≡ some t)
            ↔ (r.instant s'.tick + 60 * 1000000000 < r.instant s.tick + n * 1000000000)))
      ⊎ ((ltb_ℤ expires_in (pos 61) ≡ true)
          × ((cached_token r s' ≡ some t) ↔ (r.instant s'.tick < r.instant s.tick + 1000000000)))
unfolding store_token
store_token-window r t expires_in s s' held =
    let until = r.instant s.tick + ttl_secs expires_in * 1000000000 in
    let (there, back) = valid_until_iff r s' t until held in
    elim (ttl_secs-Kept expires_in) [
      | inl (n, is_pos, long, e) ↦
          inl (n, is_pos, long, (λ c. let h = there c in omega arith, λ h. back (omega arith)))
      | inr (short, e) ↦ inr (short, (λ c. let h = there c in omega arith, λ h. back (omega arith)))
    ]
