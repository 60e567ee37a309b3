-- ===== src/Admin/Isolation/Deployed.antt =====
-- The check of the connecting role in Db/Connect, and the isolation of tenants that rests on it.
use opengroupware.Prelude.{
  String, ◌≡◌, true, false, Option, none, some, List, All, ap, str_iff, ◌||◌, string_eq, ok, nat_eq,
  arith,
}
use opengroupware.Db.World.{Uuid, World}
use opengroupware.Db.Connect.{Db, Role, flag, assert_rls_safe_role, connect}
use opengroupware.Auth.Caller.{Caller}
use opengroupware.Admin.Tables.{Control}
use opengroupware.Admin.Routes.{Provisioner}
use opengroupware.Admin.Api.{Request, serve}
use opengroupware.Admin.Isolation.{SameFor}
use opengroupware.Admin.Isolation.Requests.{IsForeign, IsTenant, serve-SameFor}

connect-rls :
    (allow : Option String) (role : Option Role) (d : Db)
    → flag allow ≡ false
    → connect allow role ≡ ok d
    → d.rls ≡ true
unfolding connect assert_rls_safe_role
connect-rls allow none d off h = absurd (ground arith)
connect-rls allow (some r) d off h = ground arith

-- A service connected without OPENGROUPWARE_ALLOW_UNSAFE_DB=1: no sequence of requests about other
-- tenants changes a tenant's row, domains, accounts, abuse policy or audit trail, whatever role the
-- service was given.
pub connected-SameFor :
    (allow : Option String) (role : Option Role) (d : Db) (sesame : Option Provisioner)
    (requests : List (Caller × Request)) (u : Uuid) (w : World Control)
    → flag allow ≡ false
    → connect allow role ≡ ok d
    → All (λ (r : Caller × Request). IsForeign u r.1) requests
    → IsTenant u w.tables
    → SameFor u w.tables (serve (record { db = d; sesame = sesame }) requests w).tables
connected-SameFor allow role d sesame requests u w off connected foreign known =
    serve-SameFor (record { db = d; sesame = sesame }) requests u w
      (connect-rls allow role d off connected) foreign known

-- A role that row-level security does not bind is let in only where the variable is `1`.
pub connect-privileged :
    (allow : Option String) (r : Role) (d : Db)
    → (r.rolsuper || r.rolbypassrls) ≡ true
    → connect allow (some r) ≡ ok d
    → allow ≡ some "1"
unfolding connect assert_rls_safe_role flag
connect-privileged none r d privileged h = absurd (ground arith)
connect-privileged (some v) r d privileged h = ap some ((str_iff v "1").0 (ground arith))
