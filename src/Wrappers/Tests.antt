-- ===== src/Wrappers/Tests.antt =====
-- A client with an empty cache, and an identity service that issues tokens.
use opengroupware.Prelude.{
  ℕ, ◌+◌, ◌*◌, ◌≤◌, ◌<◌, ◌≡◌, ◌↔◌, ◌⊎◌, refl, true, none, some, pos, ok, ltb_ℤ,
}
use opengroupware.Wrappers.Sesame.{
  SesameConfig, Remote, ClientState, token, store_token, cached_token,
}
use opengroupware.Wrappers.Tokens.{IsIssued, token-IsIssued, store_token-window}

abbrev remote : Remote
remote = record {
  send = λ n post. ok (record { status = 200; body = "{}" });
  token_from = λ body. ok (record { access_token = "t-1"; expires_in = pos 300 });
  user_from = λ body. ok 77;
  show_status = λ status. "200 OK";
  instant = λ n. n;
}

abbrev config : SesameConfig
config = record {
  login_url = "http://login/";
  user_mgmt_url = "http://users";
  tenant = "acme";
  client_id = "og";
  client_secret = "sk_1";
}

abbrev fresh : ClientState
fresh = record { token = none; tick = 0 }

token-IsIssued_example : IsIssued remote (token remote config fresh)
token-IsIssued_example = token-IsIssued remote config fresh tt

abbrev stored : ClientState
stored = store_token remote "t-1" (pos 300) fresh

store_token-window_example :
    ((n : ℕ) × (pos 300 ≡ pos n)
      × (61 ≤ n)
      × ((cached_token remote stored ≡ some "t-1")
          ↔ (remote.instant stored.tick + 60 * 1000000000 < remote.instant 0 + n * 1000000000)))
    ⊎ ((ltb_ℤ (pos 300) (pos 61) ≡ true)
        × ((cached_token remote stored ≡ some "t-1")
            ↔ (remote.instant stored.tick < remote.instant 0 + 1000000000)))
store_token-window_example = store_token-window remote "t-1" (pos 300) fresh stored refl
