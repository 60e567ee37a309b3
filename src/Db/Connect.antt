-- ===== src/Db/Connect.antt =====
-- `Db::connect` and `assert_rls_safe_role` of crates/og-db/src/db.rs.
use opengroupware.Prelude.{
  String, Bool, false, not, ◌||◌, Option, none, some, Result, ok, err, ◌==◌, string_eq,
  if◌then◌else◌,
}
use opengroupware.Db.Errors.{SqlError, lost, privileged_role}

-- A row of `pg_roles` for the connecting role.
pub record Role : Type 0 where
  pub rolsuper : Bool
  pub rolbypassrls : Bool

-- `Db`: the pool, of which the model keeps whether the server applies policies to its role.
pub record Db : Type 0 where
  pub rls : Bool

abbrev applies_policies : Role → Bool
applies_policies r = not (r.rolsuper || r.rolbypassrls)

-- `std::env::var("OPENGROUPWARE_ALLOW_UNSAFE_DB").map(|v| v == "1").unwrap_or(false)`
unfoldable pub flag : Option String → Bool
flag none = false
flag (some v) = v == "1"

unfoldable pub assert_rls_safe_role : Option String → Role → Result SqlError Unit
assert_rls_safe_role allow r =
    if not (r.rolsuper || r.rolbypassrls)
    then ok tt
    else if flag allow
    then ok tt
    else err privileged_role

-- The pool could not be opened, or the role could not be read: `none`.
unfoldable pub connect : Option String → Option Role → Result SqlError Db
unfolding assert_rls_safe_role
connect allow none = err lost
connect allow (some r) = elim (assert_rls_safe_role allow r) [
  | ok _ ↦ ok (record { rls = applies_policies r })
  | err e ↦ err e
]
