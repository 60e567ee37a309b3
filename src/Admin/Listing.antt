-- ===== src/Admin/Listing.antt =====
-- The reading handlers of Admin/Routes: what a tenant's session is shown.
use mathlib.Core.List.{Perm}
use mathlib.Core.Path.{fun_ext}
use opengroupware.Prelude.{
  ◌≡◌, refl, true, ◌==◌, nat_eq, nat_beq_iff, List, ok, ltb, select, All, All-select_test,
  All-weaken, All-map, map, order_by, order_by-perm, order_by-Sorted, order_by-All, Sorted,
}
use opengroupware.Db.Errors.{db}
use opengroupware.Db.World.{Uuid, Time, World}
use opengroupware.Db.Visible.{visible-eq}
use opengroupware.Db.Transaction.{tenant, session}
use opengroupware.Db.Commits.{Commits, statement-Commits}
use opengroupware.Admin.Models.{Domain, Account}
use opengroupware.Admin.Tables.{Control, AccountRow, select_domains, select_accounts}
use opengroupware.Admin.Statements.{select_domains_lem, select_accounts_lem}
use opengroupware.Admin.Routes.{AppState, list_domains, list_accounts}

-- Exactly the domains of the tenant, oldest first, and nothing changed.
record DomainsShown (t : Uuid) (s : Control) (ds : List Domain) (s' : Control) : Type 0 where
  mine : All (λ (d : Domain). d.tenant_id ≡ t) ds
  complete : Perm ds (select (λ (d : Domain). d.tenant_id == t) s.domains)
  sorted : Sorted (λ (d e : Domain). ltb d.created_at e.created_at) ds
  unchanged : s' ≡ s

shown_domains :
    (t : Uuid) (s : Control)
    → DomainsShown t s
        (order_by
          (λ (d : Domain). d.created_at)
          (select (λ (d : Domain). d.tenant_id == t) s.domains))
        s
shown_domains t s = record {
  mine =
      order_by-All (λ (d : Domain). d.created_at) (λ (d : Domain). d.tenant_id ≡ t) _
        (All-weaken _ _ _ (λ d same. (nat_beq_iff _ _).0 same)
          (All-select_test (λ (d : Domain). d.tenant_id == t) s.domains));
  complete = order_by-perm (λ (d : Domain). d.created_at) _;
  sorted = order_by-Sorted (λ (d : Domain). d.created_at) _;
  unchanged = refl;
}

-- Where row-level security is in force for the role of the service, a tenant is shown exactly its own
-- domains, in order of creation, and the call changes nothing.
list_domains-mine :
    (st : AppState) (t : Uuid) (w : World Control)
    → st.db.rls ≡ true
    → Commits (DomainsShown t w.tables) w.tables (list_domains st t w)
unfolding list_domains
list_domains-mine st t w on =
    statement-Commits (DomainsShown t w.tables) db st.db (tenant t) select_domains w ran-shown
  where
    ran-shown :
        (now : Time) (id : Uuid) (ds : List Domain) (s' : Control)
        → select_domains (session st.db (tenant t) now) id w.tables ≡ ok (ds, s')
        → DomainsShown t w.tables ds s'
    ran-shown now id ds s' ran =
        let (shown, same) =
          select_domains_lem (session st.db (tenant t) now) id w.tables ds s' ran in
        rw (shown, same, fun_ext (λ (d : Domain). visible-eq st.db t now d.tenant_id on))
          (shown_domains t w.tables)

-- Exactly the accounts of the tenant, oldest first, and nothing changed.
pub record AccountsShown (t : Uuid) (s : Control) (l : List Account) (s' : Control) : Type 0 where
  pub mine : All (λ (a : Account). a.tenant_id ≡ t) l
  pub complete : Perm l (
      map
        (λ (r : AccountRow). r.account)
        (select (λ (r : AccountRow). r.account.tenant_id == t) s.accounts))
  pub sorted : Sorted (λ (a b : Account). ltb a.created_at b.created_at) l
  pub unchanged : s' ≡ s

shown_accounts :
    (t : Uuid) (s : Control)
    → AccountsShown t s
        (order_by
          (λ (a : Account). a.created_at)
          (map
            (λ (r : AccountRow). r.account)
            (select (λ (r : AccountRow). r.account.tenant_id == t) s.accounts)))
        s
shown_accounts t s = record {
  mine =
      order_by-All (λ (a : Account). a.created_at) (λ (a : Account). a.tenant_id ≡ t) _
        (All-map (λ (a : Account). a.tenant_id ≡ t) (λ (r : AccountRow). r.account) _
          (All-weaken _ _ _ (λ r same. (nat_beq_iff _ _).0 same)
            (All-select_test (λ (r : AccountRow). r.account.tenant_id == t) s.accounts)));
  complete = order_by-perm (λ (a : Account). a.created_at) _;
  sorted = order_by-Sorted (λ (a : Account). a.created_at) _;
  unchanged = refl;
}

-- Where row-level security is in force for the role of the service, a tenant is shown exactly its own
-- accounts, in order of creation, and the call changes nothing.
pub list_accounts-mine :
    (st : AppState) (t : Uuid) (w : World Control)
    → st.db.rls ≡ true
    → Commits (AccountsShown t w.tables) w.tables (list_accounts st t w)
unfolding list_accounts
list_accounts-mine st t w on =
    statement-Commits (AccountsShown t w.tables) db st.db (tenant t) select_accounts w ran-shown
  where
    ran-shown :
        (now : Time) (id : Uuid) (l : List Account) (s' : Control)
        → select_accounts (session st.db (tenant t) now) id w.tables ≡ ok (l, s')
        → AccountsShown t w.tables l s'
    ran-shown now id l s' ran =
        let (shown, same) =
          select_accounts_lem (session st.db (tenant t) now) id w.tables l s' ran in
        rw
          (shown, same, fun_ext (λ (r : AccountRow). visible-eq st.db t now r.account.tenant_id on))
          (shown_accounts t w.tables)
