-- ===== src/Jobs/Main.antt =====
-- `main` of crates/job-runner/src/main.rs: what it starts, by its environment.
use opengroupware.Prelude.{
  ℕ, String, ◌≡◌, refl, Bool, true, false, ◌||◌, Option, none, some, ℤ, pos, Result, ok, err, ◌==◌,
  string_eq,
}
use opengroupware.Db.Errors.{SqlError}
use opengroupware.Db.Connect.{Role, Db, connect}
use opengroupware.Service.Env.{env_parse, env_parse_i64}
use opengroupware.Wrappers.Sesame.{SesameConfig, from_env}

abbrev pub Environment : Type 0
Environment = String → Option String

-- What the process does: it ends with an error, or it ends, or it runs one cycle and ends, or it
-- serves health and metrics, with a worker beside it or without one.
pub data Startup : Type 0 where
  no_database_url : Startup
  database_error : SqlError → Startup
  nothing_to_do : Startup
  one_cycle : (d : Db) (sesame : SesameConfig) (batch : ℤ) → Startup
  worker : (d : Db) (sesame : SesameConfig) (batch : ℤ) (interval_secs : ℕ) → Startup
  health_only : Startup

abbrev pub is_once : Option String → Bool
is_once none = false
is_once (some v) = v == "1" || v == "true"

abbrev pub started : Environment → Db → Bool → Option SesameConfig → Startup
started env d true (some sesame) =
    one_cycle d sesame (env_parse_i64 (env "RECONCILE_BATCH") (pos 50))
started env d false (some sesame) =
    worker d sesame (env_parse_i64 (env "RECONCILE_BATCH") (pos 50))
      (env_parse (env "RECONCILE_INTERVAL_SECS") 30)
started env d true none = nothing_to_do
started env d false none = health_only

abbrev pub connected : Environment → Result SqlError Db → Startup
connected env (err e) = database_error e
connected env (ok d) = started env d (is_once (env "RECONCILE_ONCE")) (from_env env)

abbrev pub with_url : Environment → Option Role → Option String → Startup
with_url env role none = no_database_url
with_url env role (some url) = connected env (connect (env "OPENGROUPWARE_ALLOW_UNSAFE_DB") role)

-- `role` is that of the connection, if it can be opened and read.
unfoldable pub main : Environment → Option Role → Startup
unfolding connect from_env env_parse env_parse_i64
main env role = with_url env role (env "DATABASE_URL")

-- What has to hold for a cycle to be run.
abbrev pub MayReconcile : Environment → Option Role → Startup → Type 0
MayReconcile env role (one_cycle d sesame batch) =
    ((url : String) × (env "DATABASE_URL" ≡ some url))
    × (connect (env "OPENGROUPWARE_ALLOW_UNSAFE_DB") role ≡ ok d)
    × (from_env env ≡ some sesame)
    × (is_once (env "RECONCILE_ONCE") ≡ true)
MayReconcile env role (worker d sesame batch interval_secs) =
    ((url : String) × (env "DATABASE_URL" ≡ some url))
    × (connect (env "OPENGROUPWARE_ALLOW_UNSAFE_DB") role ≡ ok d)
    × (from_env env ≡ some sesame)
    × (is_once (env "RECONCILE_ONCE") ≡ false)
MayReconcile env role _ = Unit

-- Accounts are reconciled only over a connection whose role was accepted, and with the identity
-- service configured; in one cycle exactly when `RECONCILE_ONCE` asks for it.
pub main-MayReconcile :
    (env : Environment) (role : Option Role) → MayReconcile env role (main env role)
unfolding main
main-MayReconcile env role = go (env "DATABASE_URL") refl
  where
    configured :
        (url : String) (d : Db)
        → env "DATABASE_URL" ≡ some url
        → connect (env "OPENGROUPWARE_ALLOW_UNSAFE_DB") role ≡ ok d
        → (once : Bool) (sesame : Option SesameConfig) → is_once (env "RECONCILE_ONCE") ≡ once
        → from_env env ≡ sesame
        → MayReconcile env role (started env d once sesame)
    configured url d u c true (some sesame) o f = ((url, u), c, f, o)
    configured url d u c false (some sesame) o f = ((url, u), c, f, o)
    configured url d u c true none o f = tt
    configured url d u c false none o f = tt

    opened :
        (url : String)
        → env "DATABASE_URL" ≡ some url
        → (r : Result SqlError Db) → connect (env "OPENGROUPWARE_ALLOW_UNSAFE_DB") role ≡ r
        → MayReconcile env role (connected env r)
    opened url u (err e) c = tt
    opened url u (ok d) c =
        configured url d u c (is_once (env "RECONCILE_ONCE")) (from_env env) refl refl

    go :
        (url : Option String)
        → env "DATABASE_URL" ≡ url
        → MayReconcile env role (with_url env role url)
    go none u = tt
    go (some url) u = opened url u (connect (env "OPENGROUPWARE_ALLOW_UNSAFE_DB") role) refl
