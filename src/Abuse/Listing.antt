-- ===== src/Abuse/Listing.antt =====
-- The reading handler of Abuse/Routes: what a tenant's session is shown of the quarantine.
use mathlib.Core.List.{Perm}
use mathlib.Core.Path.{fun_ext}
use opengroupware.Prelude.{
  ◌≡◌, refl, ap, Bool, true, ◌&&◌, ◌==◌, nat_eq, string_eq, nat_beq_iff, str_iff, List, ok, arith,
  ltb, select, All, All-select_test, All-weaken, order_by_desc, order_by_desc-perm,
  order_by_desc-Sorted, order_by_desc-All, Sorted,
}
use opengroupware.Db.Errors.{db}
use opengroupware.Db.World.{Uuid, Time, World}
use opengroupware.Db.Connect.{Db}
use opengroupware.Db.Session.{visible}
use opengroupware.Db.Visible.{visible-eq}
use opengroupware.Db.Transaction.{tenant, session}
use opengroupware.Db.Commits.{Commits, statement-Commits}
use opengroupware.Abuse.Models.{QuarantineItem}
use opengroupware.Abuse.Tables.{Quarantine, select_held}
use opengroupware.Abuse.Routes.{list_quarantine}

abbrev pub is_held_of : Uuid → QuarantineItem → Bool
is_held_of t i = i.tenant_id == t && i.status == "held"

-- Exactly the held items of the tenant, the latest first, and nothing changed.
pub record QuarantineShown (t : Uuid) (s : Quarantine) (l : List QuarantineItem) (s' : Quarantine)
    : Type 0 where
  pub mine : All (λ (i : QuarantineItem). (i.tenant_id ≡ t) × (i.status ≡ "held")) l
  pub complete : Perm l (select (is_held_of t) s.quarantine_item)
  pub sorted : Sorted (λ (i j : QuarantineItem). ltb j.held_at i.held_at) l
  pub unchanged : s' ≡ s

shown_items :
    (t : Uuid) (s : Quarantine)
    → QuarantineShown t s
        (order_by_desc
          (λ (i : QuarantineItem). i.held_at)
          (select (is_held_of t) s.quarantine_item))
        s
shown_items t s = record {
  mine =
      order_by_desc-All (λ (i : QuarantineItem). i.held_at)
        (λ (i : QuarantineItem). (i.tenant_id ≡ t) × (i.status ≡ "held")) _
        (All-weaken _ _ _
          (λ i on. ((nat_beq_iff _ _).0 (ground (arith, on)), (str_iff _ _).0 (ground (arith, on))))
          (All-select_test (is_held_of t) s.quarantine_item));
  complete = order_by_desc-perm (λ (i : QuarantineItem). i.held_at) _;
  sorted = order_by_desc-Sorted (λ (i : QuarantineItem). i.held_at) _;
  unchanged = refl;
}

select_held_lem :
    (d : Db) (t : Uuid) (now : Time) (id : Uuid) (s : Quarantine) (l : List QuarantineItem)
    (s' : Quarantine)
    → select_held (session d (tenant t) now) id s ≡ ok (l, s')
    → (l
        ≡ order_by_desc
            (λ (i : QuarantineItem). i.held_at)
            (select
              (λ (i : QuarantineItem).
                visible (session d (tenant t) now) i.tenant_id && i.status == "held")
              s.quarantine_item))
      × (s' ≡ s)
unfolding select_held
select_held_lem d t now id s l s' ran = (ground arith, ground arith)

-- Policies apply to the role. Then a tenant is shown exactly its own held items, the latest first, and
-- the call changes nothing.
pub list_quarantine-mine :
    (d : Db) (t : Uuid) (w : World Quarantine)
    → d.rls ≡ true
    → Commits (QuarantineShown t w.tables) w.tables (list_quarantine d t w)
unfolding list_quarantine
list_quarantine-mine d t w on =
    statement-Commits (QuarantineShown t w.tables) db d (tenant t) select_held w shown
  where
    shown :
        (now : Time) (id : Uuid) (l : List QuarantineItem) (s' : Quarantine)
        → select_held (session d (tenant t) now) id w.tables ≡ ok (l, s')
        → QuarantineShown t w.tables l s'
    shown now id l s' ran =
        let (l_eq, s_eq) = select_held_lem d t now id w.tables l s' ran in
        rw
          (
            l_eq,
            s_eq,
            fun_ext (λ (i : QuarantineItem).
                ap (λ b. b && i.status == "held") (visible-eq d t now i.tenant_id on)),
          )
          (shown_items t w.tables)
