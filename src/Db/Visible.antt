-- ===== src/Db/Visible.antt =====
-- Which rows a tenant's session sees.
use opengroupware.Prelude.{◌≡◌, true, some, ◌==◌, nat_eq, arith}
use opengroupware.Db.World.{Uuid, Time}
use opengroupware.Db.Session.{visible, visible_entry}
use opengroupware.Db.Connect.{Db}
use opengroupware.Db.Transaction.{tenant, session}

-- A tenant's session sees the tenant's own rows, whatever the role.
pub visible-own : (d : Db) (t : Uuid) (now : Time) → visible (session d (tenant t) now) t ≡ true
unfolding visible
visible-own d t now = ground arith

pub visible_entry-own :
    (d : Db) (t : Uuid) (now : Time) → visible_entry (session d (tenant t) now) (some t) ≡ true
unfolding visible_entry
visible_entry-own d t now = visible-own d t now

-- Policies apply to the role: a session of a tenant sees the rows of that tenant alone.
pub visible-mine :
    (d : Db) (t : Uuid) (now : Time) (u : Uuid)
    → d.rls ≡ true
    → visible (session d (tenant t) now) u ≡ true
    → u ≡ t
unfolding visible
visible-mine d t now u on h = ground arith

pub visible-eq :
    (d : Db) (t : Uuid) (now : Time) (u : Uuid)
    → d.rls ≡ true
    → visible (session d (tenant t) now) u ≡ (u == t)
unfolding visible
visible-eq d t now u on = ground arith
