-- ===== src/Admin/Conflicts.antt =====
-- How `create_tenant` of Admin/Routes answers a slug that is taken.
use opengroupware.Prelude.{
  ℕ, String, ◌≡◌, refl, true, ◌||◌, Option, none, some, List, [], ◌∷◌, Result, ok, err, any, ◌==◌,
  nat_eq, string_eq, Bool-cases, inl, inr, arith,
}
use opengroupware.Prelude.Texts.{codes}
use opengroupware.Db.Errors.{ApiError, unique_violation, db, into_response}
use opengroupware.Db.World.{Uuid, World, next}
use opengroupware.Db.Session.{Session, platform_only}
use opengroupware.Db.Transaction.{platform, session, exec}
use opengroupware.Db.Live.{IsUp, Fails, transact-Fails}
use opengroupware.Auth.Caller.{Caller}
use opengroupware.Admin.Models.{Tenant, CreateTenant}
use opengroupware.Admin.Validate.{validate_slug}
use opengroupware.Admin.Checks.{slug_check}
use opengroupware.Admin.Backstop.{validate_slug-slug_check}
use opengroupware.Admin.Tables.{Control, control_audit, insert_tenant}
use opengroupware.Admin.Routes.{AppState, create_tenant_tx, create_tenant}

-- The error's status and text that the caller is answered with; none on success.
abbrev pub failure_of : {A : Type 0} → Result ApiError A → Option (ℕ × String)
failure_of (ok a) = none
failure_of (err e) = some (into_response e)

any-either :
    (id : Uuid) (slug : String) (ts : List Tenant)
    → any (λ (r : Tenant). r.slug == slug) ts ≡ true
    → any (λ (r : Tenant). r.id == id || r.slug == slug) ts ≡ true
unfolding any
any-either id slug [] h = h
any-either id slug (t ∷ ts) h = elim (Bool-cases (t.slug == slug)) [
  | inl same ↦ ground (arith, same)
  | inr other ↦ ground (arith, any-either id slug ts (ground (arith, h, other)))
]

insert_tenant-taken :
    (slug name plan : String) (se : Session) (id : Uuid) (s : Control)
    → platform_only se ≡ true
    → slug_check (codes slug) ≡ true
    → any (λ (r : Tenant). r.slug == slug) s.tenants ≡ true
    → insert_tenant slug name plan se id s ≡ err unique_violation
unfolding insert_tenant
insert_tenant-taken slug name plan se id s admin checked taken =
    rw (admin, checked, any-either id slug s.tenants taken) refl

taken-Fails :
    (st : AppState) (caller : Caller) (req : CreateTenant) (w : World Control)
    → IsUp w
    → validate_slug req.slug ≡ ok tt
    → any (λ (r : Tenant). r.slug == req.slug) w.tables.tenants ≡ true
    → Fails (db unique_violation) w (create_tenant st caller req w)
unfolding create_tenant exec platform_only
taken-Fails st caller req w up valid taken = rw valid (
    transact-Fails db st.db platform (create_tenant_tx caller req) w (db unique_violation) up (
      rw
        (
          up (next (next w)).tick,
          insert_tenant-taken req.slug req.name req.plan (session st.db platform (w.clock w.tick))
              (w.uuids (next (next w)).tick) w.tables (ground arith)
              (validate_slug-slug_check req.slug valid) taken,
        )
        (refl, refl, record { replies_eq = refl; clock_eq = refl; uuids_eq = refl })))

-- Over a connection that answers, the creation of a tenant with a valid slug that another tenant has
-- is answered with 409 and the fixed text `already exists`, which tells nothing of the database's
-- error, and changes nothing.
pub create_tenant-taken :
    (st : AppState) (caller : Caller) (req : CreateTenant) (w : World Control)
    → IsUp w
    → validate_slug req.slug ≡ ok tt
    → any (λ (r : Tenant). r.slug == req.slug) w.tables.tenants ≡ true
    → (failure_of (create_tenant st caller req w).0 ≡ some (409, "already exists"))
      × ((create_tenant st caller req w).1.tables ≡ w.tables)
unfolding into_response
create_tenant-taken st caller req w up valid taken =
    go (create_tenant st caller req w) (taken-Fails st caller req w up valid taken)
  where
    go :
        (r : Result ApiError Tenant × World Control)
        → Fails (db unique_violation) w r
        → (failure_of r.0 ≡ some (409, "already exists")) × (r.1.tables ≡ w.tables)
    go (ok a, w') h = absurd h
    go (err e, w') (same, tables, _) = (rw same refl, tables)
