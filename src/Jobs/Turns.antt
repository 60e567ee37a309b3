-- ===== src/Jobs/Turns.antt =====
-- What one transaction of Jobs/Steps does to the accounts.
use opengroupware.Prelude.{
  ℕ, String, ◌≡◌, ◌∙◌, refl, sym, ap, subst, Bool, true, false, ◌&&◌, List, [], ◌∷◌, ◌++◌, inl, inr,
  ℤ, Result, ok, err, nat_eq, string_eq, ◌==◌, nat_beq_iff, arith, All, All-concat, All-weaken,
  All-both, All-map, All-limit, All-select, order_by-All, order_by, select, limit, map, pos, negsuc,
  Distinct, any-append, none, any, any-weaken, update,
}
use opengroupware.Types.Provider.{ProviderError}
use opengroupware.Db.Errors.{SqlError, ApiError}
use opengroupware.Db.World.{Uuid, Time, World}
use opengroupware.Db.Session.{Session, visible}
use opengroupware.Db.Connect.{Db}
use opengroupware.Db.Transaction.{tenant, platform, session, transact}
use opengroupware.Db.Commits.{
  Commits, Yields, Commits-keeps, transact-Commits, exec-Yields, record_entry-Yields,
}
use opengroupware.Auth.Caller.{Caller}
use opengroupware.Admin.Models.{Account, CreateAccount}
use opengroupware.Admin.Tables.{AccountRow, Control, control_audit, activated}
use opengroupware.Admin.Routes.{AppState, Provisioner, provisioned, or_account, activate_tx}
use opengroupware.Admin.Api.{
  Request, post_tenants, get_tenants, post_domains, get_domains, post_accounts, get_accounts,
  get_abuse_policy, put_abuse_policy, router,
}
use opengroupware.Admin.Effects.{
  TenantCreated, create_tenant-Commits, DomainCreated, create_domain-Commits, PolicySet,
  put_policy-Commits,
}
use opengroupware.Admin.Accounts.{
  AccountCreated, created-Commits, AccountProvisioned, activate-Commits,
}
use opengroupware.Admin.WellFormed.{WellFormed, WellFormed-activated}
use opengroupware.Admin.Invariant.{
  WellFormed-audited, list_tenants-unchanged, list_domains-unchanged, list_accounts-unchanged,
  get_policy-unchanged,
}
use opengroupware.Jobs.Reconcile.{
  PendingRow, is_pending, pending_row, is_pending_account, activate_pending, reconciled_entry,
  count_tx, persist_tx, persist, select_pending,
}
use opengroupware.Jobs.Effects.{UniqueIds, Persisted, persist-Commits}
use opengroupware.Jobs.Rows.{IsKnown, Change, same, added, patched}
use opengroupware.Jobs.Steps.{first_transaction, IsShort}

-- The identity service answers for an address always with the same user.
abbrev pub IsIdempotent : Provisioner → (String → Uuid) → Type 0
IsIdempotent sesame identity =
    (n : ℕ) (email display_name : String) (uid : Uuid)
    → sesame n email display_name ≡ ok uid
    → uid ≡ identity email

module _ (st : AppState) (caller : Caller) where
  -- A request of one transaction leaves the accounts alone.
  pub short-accounts :
      (req : Request) (w : World Control)
      → IsShort req
      → (router st caller req w).tables.accounts ≡ w.tables.accounts
  unfolding router
  short-accounts (post_tenants req) w h =
      Commits-keeps (TenantCreated st caller req w.tables) (λ s'. s'.accounts ≡ w.tables.accounts)
        w.tables _ (λ t s' q. rw (q.tables_eq, q.row.tables_eq) refl) refl
        (create_tenant-Commits st caller req w)
  short-accounts get_tenants w h = ap (λ (s : Control). s.accounts) (list_tenants-unchanged st w)
  short-accounts (post_domains t req) w h =
      Commits-keeps (DomainCreated st t caller req w.tables) (λ s'. s'.accounts ≡ w.tables.accounts)
        w.tables _ (λ d s' q. rw (q.tables_eq, q.row.tables_eq) refl) refl
        (create_domain-Commits st t caller req w)
  short-accounts (get_domains t) w h =
      ap (λ (s : Control). s.accounts) (list_domains-unchanged st t w)
  short-accounts (post_accounts t req) w h = absurd h
  short-accounts (get_accounts t) w h =
      ap (λ (s : Control). s.accounts) (list_accounts-unchanged st t w)
  short-accounts (get_abuse_policy t) w h =
      ap (λ (s : Control). s.accounts) (get_policy-unchanged st t w)
  short-accounts (put_abuse_policy t req) w h =
      Commits-keeps (PolicySet st t caller req w.tables) (λ s'. s'.accounts ≡ w.tables.accounts)
        w.tables _ (λ p s' q. rw (q.tables_eq, q.row.tables_eq) refl) refl
        (put_policy-Commits st t caller req w)

module _ {A : Type 0} where
  any-All : (q : A → Bool) (xs : List A) → any q xs ≡ false → All (λ x. q x ≡ false) xs
  unfolding any
  any-All q [] h = tt
  any-All q (x ∷ xs) h = (ground (arith, h), any-All q xs (ground (arith, h)))

module _ (identity : String → Uuid) where
  -- The accounts after a transaction, and that the account it answers with is there.
  abbrev pub Opens : Control → Result ApiError Account × World Control → Type 0
  Opens s (ok a, w) =
      Change identity s.accounts w.tables.accounts × IsKnown a.id a.email w.tables.accounts
  Opens s (err e, w) = Change identity s.accounts w.tables.accounts

  new-IsKnown :
      (rows : List AccountRow) (r : AccountRow)
      → any (λ (x : AccountRow). x.account.id == r.account.id) rows ≡ false
      → IsKnown r.account.id r.account.email (rows ++ r ∷ [])
  unfolding any
  new-IsKnown rows r fresh = (
    any-append (λ (x : AccountRow). x.account.id == r.account.id) rows (r ∷ []) ∙ (ground arith),
    All-concat (λ (x : AccountRow). x.account.id ≡ r.account.id → x.account.email ≡ r.account.email)
        rows r
        (All-weaken _ _ rows (λ x other e. absurd (ground (arith, other, (nat_beq_iff _ _).1 e)))
          (any-All _ rows fresh))
        (λ _. refl),
  )

  module _ (st : AppState) (t : Uuid) (caller : Caller) where
    AccountCreated-Opens :
        (req : CreateAccount) (s : Control) (a : Account) (s' : Control)
        → AccountCreated st t caller req s a s'
        → Change identity s.accounts s'.accounts × IsKnown a.id a.email s'.accounts
    AccountCreated-Opens req s a s' c =
        let row : AccountRow = record {
          account = a;
          sesame_user_id = none;
          updated_at = a.created_at;
        } in
        let fresh : any (λ (r : AccountRow). r.account.id == a.id) s.accounts ≡ false =
          any-weaken _ _ s.accounts (λ r no. ground (arith, no)) c.row.unused in
        rw (c.tables_eq, c.row.tables_eq)
          (added s.accounts row c.row.status_eq fresh, new-IsKnown s.accounts row fresh)

    pub first_transaction-Opens :
        (req : CreateAccount) (w : World Control)
        → Opens w.tables (first_transaction st t caller req w)
    first_transaction-Opens req w = go _ (created-Commits st t caller req w)
      where
        go :
            (r : Result ApiError Account × World Control)
            → Commits (AccountCreated st t caller req w.tables) w.tables r
            → Opens w.tables r
        go (ok a, w') h = AccountCreated-Opens req w.tables a w'.tables h
        go (err e, w') (inl unchanged) = rw unchanged (same w.tables.accounts)
        go (err e, w') (inr (a, h)) = (AccountCreated-Opens req w.tables a w'.tables h).0

    or_account-tables :
        (c : Account) (r : Result SqlError Account × World Control)
        → (or_account c r).1.tables ≡ r.1.tables
    or_account-tables c (ok a, w) = refl
    or_account-tables c (err e, w) = refl

    pub provisioned-Change :
        (c : Account) (r : Result ProviderError Uuid) (w : World Control)
        → ((uid : Uuid) → r ≡ ok uid → uid ≡ identity c.email)
        → IsKnown c.id c.email w.tables.accounts
        → Change identity w.tables.accounts (provisioned st t caller c r w).1.tables.accounts
    provisioned-Change c (err e) w same_user known = same w.tables.accounts
    provisioned-Change c (ok uid) w same_user known =
        rw (or_account-tables c (transact (λ e. e) st.db (tenant t) (activate_tx t caller c uid) w))
          (Commits-keeps (AccountProvisioned st t caller c uid w.tables)
            (λ s'. Change identity w.tables.accounts s'.accounts) w.tables _
            (λ a s' q.
              rw (q.tables_eq, q.row.tables_eq, same_user uid refl)
                (patched w.tables.accounts _ c.id c.email q.now
                  (λ r on. (nat_beq_iff _ _).0 (ground arith)) known))
            (same w.tables.accounts) (activate-Commits st t caller c uid w))

module _ (d : Db) (row : PendingRow) (uid : Uuid) where
  -- The guarded update, at some time, and nothing else of the accounts.
  abbrev Patched : Control → Control → Type 0
  Patched s s' =
      (now : Time) × (s'.accounts
        ≡ update (is_pending_account (session d platform now) row.id) (activated uid now)
            s.accounts)

  count_tx-Yields :
      (s : Control) (b : Bool) (se : Session) (w : World Control)
      → Patched s w.tables
      → Yields (λ _ s'. Patched s s') (count_tx b row uid se w)
  count_tx-Yields s true se w h =
      record_entry-Yields (λ _ s'. Patched s s') (λ e. e) (reconciled_entry row uid) 1 se w h
  count_tx-Yields s false se w h = h

  ran_accounts :
      (t : Control) (now : Time) (id : Uuid) (n : ℕ) (s : Control)
      → activate_pending row.id uid (session d platform now) id t ≡ ok (n, s)
      → s.accounts
        ≡ update (is_pending_account (session d platform now) row.id) (activated uid now) t.accounts
  unfolding activate_pending
  ran_accounts t now id n s ran = ground arith

  persist-Patched :
      (w : World Control)
      → Commits
          (λ _ s'. Patched w.tables s')
          w.tables
          (transact (λ e. e) d platform (persist_tx row uid) w)
  persist-Patched w =
      transact-Commits (λ _ s'. Patched w.tables s') (λ e. e) d platform (persist_tx row uid) w
        λ now w' same.
          exec-Yields (λ _ s'. Patched w.tables s') (λ e. e) (activate_pending row.id uid)
            (λ updated. count_tx (updated == 1) row uid) (session d platform now) w'
            λ id n s w'' ran same'.
              count_tx-Yields w.tables (n == 1) (session d platform now) w''
                (now, rw same' (ran_accounts w.tables now id n s (rw same at ran)))

-- The row of a cycle, whatever the identity service answers.
pub persist-Change :
    (identity : String → Uuid) (d : Db) (row : PendingRow) (r : Result ProviderError Uuid)
    (w : World Control)
    → ((uid : Uuid) → r ≡ ok uid → uid ≡ identity row.email)
    → IsKnown row.id row.email w.tables.accounts
    → Change identity w.tables.accounts (persist d row r w).1.tables.accounts
persist-Change identity d row (err e) w same_user known = same w.tables.accounts
persist-Change identity d row (ok uid) w same_user known =
    Commits-keeps (λ _ s'. Patched d row uid w.tables s')
      (λ s'. Change identity w.tables.accounts s'.accounts) w.tables _
      (λ n s' (now, h).
        rw (h, same_user uid refl)
          (patched w.tables.accounts _ row.id row.email now
            (λ r on. (nat_beq_iff _ _).0 (ground arith)) known))
      (same w.tables.accounts) (persist-Patched d row uid w)

-- It keeps the tables well formed.
pub persist-WellFormed :
    (d : Db) (row : PendingRow) (r : Result ProviderError Uuid) (w : World Control)
    → UniqueIds w.tables
    → WellFormed w.tables
    → WellFormed (persist d row r w).1.tables
persist-WellFormed d row (err e) w unique h = h
persist-WellFormed d row (ok uid) w unique h =
    Commits-keeps (Persisted d row w.tables) WellFormed w.tables _ (go w.tables h) h
      (persist-Commits d row uid w unique)
  where
    go :
        (s : Control)
        → WellFormed s
        → (k : ℕ) (s' : Control) → Persisted d row s k s'
        → WellFormed s'
    go s h k s' (inl (_, unchanged)) = rw unchanged h
    go s h k s' (inr (_, a)) =
        rw a.tables_eq
          (WellFormed-audited _ _ _ (WellFormed-activated _ a.sesame_user_id a.now s h))

-- Every account that is there is known.
module _ where
  IsKnown-after :
      (x : AccountRow) (rows : List AccountRow) (r : AccountRow)
      → (r.account.id == x.account.id) ≡ false
      → IsKnown r.account.id r.account.email rows
      → IsKnown r.account.id r.account.email (x ∷ rows)
  unfolding any
  IsKnown-after x rows r other (there, known) = (
    ground (arith, there),
    (λ e. absurd (ground (arith, other, (nat_beq_iff _ _).1 (sym e))), known),
  )

  pub All-IsKnown :
      (rows : List AccountRow)
      → Distinct (λ (r : AccountRow). r.account.id) rows
      → All (λ (r : AccountRow). IsKnown r.account.id r.account.email rows) rows
  unfolding any
  All-IsKnown [] d = tt
  All-IsKnown (x ∷ rows) (fresh, d) = (
    (
      ground arith,
      (
        λ _. refl,
        All-weaken _ _ rows (λ r other e. absurd (ground (arith, other, (nat_beq_iff _ _).1 e)))
            (any-All _ rows fresh),
      ),
    ),
    All-both _ _ _ rows (IsKnown-after x rows) (any-All _ rows fresh) (All-IsKnown rows d),
  )

pub select_pending-IsKnown :
    (d : Db) (batch : ℤ) (now : Time) (id : Uuid) (rows : List PendingRow) (s s' : Control)
    → UniqueIds s
    → select_pending batch (session d platform now) id s ≡ ok (rows, s')
    → All (λ (r : PendingRow). IsKnown r.id r.email s.accounts) rows × (s' ≡ s)
unfolding select_pending
select_pending-IsKnown d (negsuc n) now id rows s s' unique ran = absurd (ground arith)
select_pending-IsKnown d (pos n) now id rows s s' unique ran =
    let IsRow = λ (r : PendingRow). IsKnown r.id r.email s.accounts in
    let IsOf = λ (r : AccountRow). IsKnown r.account.id r.account.email s.accounts in
    let p =
      λ (r : AccountRow). visible (session d platform now) r.account.tenant_id && is_pending r in
    let found = order_by (λ (r : AccountRow). r.account.created_at) (select p s.accounts) in
    let all_found : All IsRow (map pending_row (limit n found)) =
      All-map IsRow pending_row (limit n found) (
        All-limit IsOf n found (
          order_by-All (λ (r : AccountRow). r.account.created_at) IsOf _
            (All-select IsOf p s.accounts (All-IsKnown s.accounts unique)))) in
    let rows_eq : map pending_row (limit n found) ≡ rows = ground arith in
    (subst (All IsRow) rows_eq all_found, ground arith)
