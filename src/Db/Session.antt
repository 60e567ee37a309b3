-- ===== src/Db/Session.antt =====
-- The row-level security of crates/admin-api/migrations and crates/abuse-api/migrations: settings
-- of a transaction, and the rows that its statements see and may write.
use opengroupware.Prelude.{Bool, false, not, ◌||◌, Option, none, some, ◌==◌, nat_eq}
use opengroupware.Db.World.{Uuid, Time}

-- `rls` says whether policies apply to the connecting role; the two settings are local to the
-- transaction; `started` is what `now()` returns in it.
pub record Session : Type 0 where
  pub rls : Bool
  pub current_tenant_id : Option Uuid
  pub is_platform_admin : Bool
  pub started : Time

-- `tenant_id::text = current_setting('app.current_tenant_id', true)`; an unset setting is NULL.
abbrev pub is_current : Option Uuid → Uuid → Bool
is_current none tenant = false
is_current (some t) tenant = t == tenant

-- The policies of every tenant-scoped table, for reading and for writing.
unfoldable pub visible : Session → Uuid → Bool
visible se tenant = not se.rls || (is_current se.current_tenant_id tenant || se.is_platform_admin)

-- The audit log's `tenant_id` may be NULL, which equals no setting.
unfoldable pub visible_entry : Session → Option Uuid → Bool
unfolding visible
visible_entry se none = not se.rls || se.is_platform_admin
visible_entry se (some tenant) = visible se tenant

-- Writing `tenants` is for the platform alone.
unfoldable pub platform_only : Session → Bool
platform_only se = not se.rls || se.is_platform_admin
