-- ===== src/Lib.antt =====
-- A verification library of opengroupware, a multi-tenant mail and groupware control plane in Rust.
--
-- The program is a set of services over two Postgres databases. crates/admin-api owns tenants,
-- domains, accounts and abuse policies; crates/abuse-api owns scan decisions and the quarantine
-- workflow; crates/job-runner retries the provisioning of accounts that admin-api left pending;
-- crates/config-compiler turns the control plane's tables into the settings of the mail filter. All of
-- them use crates/og-db (transactions with row-level security, the audit trail, error responses), and
-- the two APIs verify their callers with crates/og-auth.
--
-- Which file models which part:
--   Prelude        names of the libraries, Boolean tests, lists as table contents, unique keys,
--                  ORDER BY, texts by code points, signed integers, floats, Rust's `Result`
--   Types          crates/types/src: Provider ProviderContext and ProviderError, Model the records of
--                  lib.rs that providers use; Mail, Identity, Abuse, Backup, Search and Storage the
--                  traits of providers/, each a record of operations on the state of a backend
--   Db             crates/og-db/src: World is what a service meets (replies, clock, identifiers),
--                  Session the row-level security, Connect `Db::connect`, Transaction `tenant_tx`,
--                  `platform_tx`, statements and commit, Audit `record`, Commits the all-or-nothing
--                  lemmas, Live those over a connection that answers, Visible what a tenant's session
--                  sees, Errors error.rs
--   Auth           crates/og-auth/src: Keys `parse_jwks`, `cached`, `refresh`, `key_for`; Verify
--                  `verify`, `caller`, `bearer`, `require_auth`; Json the serde derives of lib.rs; Mock
--                  and RoundTrip mock.rs; the others are proofs
--   Admin          crates/admin-api/src: Models and Validate models.rs; Checks the CHECK constraints
--                  and Tables the tables of the migrations with the statements of routes.rs; Routes
--                  its handlers; Api its router; the other modules are proofs
--   Abuse          crates/abuse-api/src, in the same way; Workflow and History are the life of a
--                  quarantine item
--   Jobs           crates/job-runner/src: Reconcile reconcile.rs, Main what main.rs starts; Steps,
--                  Rows, Turns, Interleaving and Runs are its transactions between those of Admin
--   Compiler       crates/config-compiler/src/render.rs: Policies `load_policies`, Render
--                  `render_doc`, `settings_schema` and `render_ucl`, Disk `write_atomic`, Cycle
--                  `compile_once`; Schema crates/config-schema/src/lib.rs; Conforms is what
--                  the keywords of a JSON Schema mean
--   Wrappers       crates/wrappers/src: Sesame and Tokens sesame_client.rs; Stalwart, StalwartMail,
--                  StalwartIdentity, StalwartBackup, RspamdAbuse, MinioStorage and TantivySearch the
--                  files of those names, over Stubs
--   Console        crates/admin-console/src: Client client.rs, Views and Style app.rs, Pages main.rs;
--                  Words and Outcomes are proofs
--   Service        `resolve_port` of crates/service-kit/src/lib.rs, `env_parse` of the entry points
--
-- How it is modelled. A service's state is a `World`: the tables, and the number of the next round
-- trip, by which arbitrary functions say whether the round trip is answered, refused, or carried out
-- with its answer lost, and what time and fresh identifier it sees. A statement is a function on the
-- tables that honours row-level security and the constraints of the migrations; a transaction runs
-- statements and commits, or leaves no trace. Handlers start from decoded requests. A handler runs
-- its transactions one after another; Jobs/Steps lets those of several requests and of the job runner
-- take turns, each transaction as a whole. Uuids and times are natural numbers,
-- i32 and i64 columns are integers (the constraints of the tables keep them in range), and f64 and
-- f32 are IEEE values with their order. Every loop is structural recursion; there is no fuel.
--
-- Parameters, for code that is not in the repository: base64, JSON, Ed25519, UUID parsing and the
-- JWKS request (`Auth.Outside`; for the mock, `Signer`), the identity service (`Provisioner`; for its
-- client, the HTTP requests and the clock, `Remote`), and for the compiler the
-- collation of the database, the jsonschema crate, the printing of floats and the
-- file system (`Surroundings`); for the console the HTTP requests, JSON and the text of identifiers
-- (`Web`).
--
-- Not modelled: the start of the processes, HTTP routing and JSON decoding of requests (axum, serde),
-- tracing and metrics, the HTTP server of the mock identity provider, the records of crates/types that
-- nothing uses (Tenant, TenantConfig and its parts), the printing of the console's documents (leptos),
-- and crates/webmail, whose pages are placeholders.
pub mod Prelude
pub mod Types
pub mod Db
pub mod Auth
pub mod Admin
pub mod Abuse
pub mod Jobs
pub mod Compiler
pub mod Wrappers
pub mod Service
pub mod Console
