-- ===== src/Admin/Accounts.antt =====
-- What `create_account` and `provision_into_sesame` of Admin/Routes do to the tables.
use opengroupware.Prelude.{
  ℕ, ◌≡◌, refl, ◌⊎◌, inl, inr, ◌∙◌, String, Option, none, some, Result, ok, err, ok_or,
}
use opengroupware.Types.Provider.{ProviderError}
use opengroupware.Db.Errors.{SqlError, ApiError, not_found, db}
use opengroupware.Db.World.{Uuid, Time, World, next, continue}
use opengroupware.Db.Transaction.{
  Tx, pure, exec, ◌>>=◌, from_result, ◌>>◌, tenant, session, transact,
}
use opengroupware.Db.Audit.{record_entry}
use opengroupware.Db.Commits.{
  Yields, Commits, transact-Commits, exec-Yields, audited-Commits, audited-Yields,
}
use opengroupware.Auth.Caller.{Caller}
use opengroupware.Admin.Models.{Account, CreateAccount}
use opengroupware.Admin.Validate.{validate_local_part}
use opengroupware.Admin.Tables.{Control, control_audit, select_fqdn, insert_account, update_account}
use opengroupware.Admin.Statements.{
  NewAccount, insert_account-NewAccount, Activated, update_account-Activated, OpenDomain,
  select_fqdn-OpenDomain,
}
use opengroupware.Admin.Routes.{
  AppState, Provisioner, validated, email_of, account_entry, create_account_tx, provisioned_entry,
  activate_tx, or_account, provisioned, provision_into_sesame, maybe_provision, create_account,
}
use opengroupware.Admin.Effects.{audited, validated-Commits}

-- The pending account, in a domain of the tenant that is not suspended, and its audit entry.
pub record AccountCreated (st : AppState) (tenant_id : Uuid) (caller : Caller) (req : CreateAccount)
    (s : Control) (a : Account) (s' : Control) : Type 0 where
  pub now : Time
  pub between : Control
  pub fqdn : String
  pub valid : validate_local_part req.local_part ≡ ok tt
  pub domain : OpenDomain req.domain_id (session st.db (tenant tenant_id) now) s fqdn
  pub row :
      NewAccount tenant_id req.domain_id
        (email_of req.local_part fqdn)
        req.display_name
        req.quota_mb
        (session st.db (tenant tenant_id) now)
        s
        a
        between
  pub tables_eq : s' ≡ audited now (account_entry tenant_id caller a) between

module _ (st : AppState) (tenant_id : Uuid) (caller : Caller) (req : CreateAccount) where
  rest_tx : Option String → Tx Control ApiError Account
  rest_tx found = do
    fqdn ← from_result (ok_or found not_found)
    a ← exec db (
        insert_account tenant_id req.domain_id (email_of req.local_part fqdn) req.display_name
          req.quota_mb)
    record_entry db (account_entry tenant_id caller a)
    pure a

  rest_tx-Yields :
      (s : Control) (now : Time) (found : Option String) (w : World Control)
      → validate_local_part req.local_part ≡ ok tt
      → ((fqdn : String)
          → found ≡ some fqdn
          → OpenDomain req.domain_id (session st.db (tenant tenant_id) now) s fqdn)
      → w.tables ≡ s
      → Yields
          (AccountCreated st tenant_id caller req s)
          (rest_tx found (session st.db (tenant tenant_id) now) w)
  unfolding rest_tx
  rest_tx-Yields s now none w valid open_domain same = tt
  rest_tx-Yields s now (some fqdn) w valid open_domain same =
      audited-Yields (AccountCreated st tenant_id caller req s) db
        (insert_account tenant_id req.domain_id (email_of req.local_part fqdn) req.display_name
          req.quota_mb)
        (account_entry tenant_id caller) (session st.db (tenant tenant_id) now) w
        λ id a s' ran. record {
          now = now;
          between = s';
          fqdn = fqdn;
          valid = valid;
          domain = open_domain fqdn refl;
          row = insert_account-NewAccount _ _ _ _ _ _ id _ a s' (rw same at ran);
          tables_eq = refl;
        }

  pub created-Commits :
      (w : World Control)
      → Commits (AccountCreated st tenant_id caller req w.tables) w.tables (
          validated
            (validate_local_part req.local_part)
            (transact db st.db (tenant tenant_id) (create_account_tx tenant_id caller req))
            w)
  unfolding rest_tx
  created-Commits w =
      let Q = AccountCreated st tenant_id caller req w.tables in
      validated-Commits Q (validate_local_part req.local_part)
        (transact db st.db (tenant tenant_id) (create_account_tx tenant_id caller req)) w
        λ valid.
          transact-Commits Q db st.db (tenant tenant_id) (create_account_tx tenant_id caller req) w
            λ now w' same.
              exec-Yields Q db (select_fqdn req.domain_id) rest_tx
                (session st.db (tenant tenant_id) now) w'
                λ id found s w'' ran same'.
                  let read = select_fqdn-OpenDomain req.domain_id _ id _ found s (rw same at ran) in
                  rest_tx-Yields w.tables now found w'' valid read.0 (same' ∙ read.1)

-- The account found and made active, and the audit entry.
pub record AccountProvisioned (st : AppState) (tenant_id : Uuid) (caller : Caller)
    (account : Account) (sesame_user_id : Uuid) (s : Control) (a : Account) (s' : Control)
    : Type 0 where
  pub now : Time
  pub between : Control
  pub row : Activated account.id sesame_user_id (session st.db (tenant tenant_id) now) s a between
  pub tables_eq : s' ≡ audited now (provisioned_entry tenant_id caller a sesame_user_id) between

module _ (st : AppState) (tenant_id : Uuid) (caller : Caller) where
  -- Provisioning did nothing that is seen here, or activated the account with an identity that was
  -- given for it; the caller is told of an activation unless its report was lost.
  abbrev pub ProvisionEffect :
      (Given : Uuid → Type 0) → Account → Control → Account → Control → Type 0
  ProvisionEffect Given c s a s' =
      ((a ≡ c) × (s' ≡ s))
      ⊎ ((uid : Uuid) × (updated : Account) × Given uid
          × AccountProvisioned st tenant_id caller c uid s updated s'
          × ((a ≡ updated) ⊎ (a ≡ c)))

  or_account-ProvisionEffect :
      (Given : Uuid → Type 0) (c : Account) (uid : Uuid) (s : Control)
      (r : Result SqlError Account × World Control)
      → Given uid
      → Commits (AccountProvisioned st tenant_id caller c uid s) s r
      → ProvisionEffect Given c s (or_account c r).0 (or_account c r).1.tables
  or_account-ProvisionEffect Given c uid s (ok updated, w) given h =
      inr (uid, updated, given, h, inl refl)
  or_account-ProvisionEffect Given c uid s (err e, w) given (inl same) = inl (refl, same)
  or_account-ProvisionEffect Given c uid s (err e, w) given (inr (updated, h)) =
      inr (uid, updated, given, h, inr refl)

  -- The second transaction.
  pub activate-Commits :
      (c : Account) (uid : Uuid) (w : World Control)
      → Commits
          (AccountProvisioned st tenant_id caller c uid w.tables)
          w.tables
          (transact (λ e. e) st.db (tenant tenant_id) (activate_tx tenant_id caller c uid) w)
  activate-Commits c uid w =
      audited-Commits (AccountProvisioned st tenant_id caller c uid w.tables) (λ e. e) st.db
        (tenant tenant_id) (update_account c.id uid) (λ a. provisioned_entry tenant_id caller a uid)
        w
        λ now id a s ran. record {
          now = now;
          between = s;
          row = update_account-Activated _ _ _ id _ a s ran;
          tables_eq = refl;
        }

  pub provisioned-ProvisionEffect :
      (c : Account) (r : Result ProviderError Uuid) (w : World Control)
      → ProvisionEffect
          (λ uid. r ≡ ok uid)
          c
          w.tables
          (provisioned st tenant_id caller c r w).0
          (provisioned st tenant_id caller c r w).1.tables
  provisioned-ProvisionEffect c (err e) w = inl (refl, refl)
  provisioned-ProvisionEffect c (ok uid) w =
      or_account-ProvisionEffect (λ u. ok uid ≡ ok u) c uid w.tables _ refl
        (activate-Commits c uid w)

  -- The identity service is configured, and answered the request for this address and name, which
  -- was round trip `n`, with this identity.
  abbrev pub GivenFor : Option Provisioner → ℕ → Account → Uuid → Type 0
  GivenFor sesame n c uid =
      (service : Provisioner) × (sesame ≡ some service)
      × (service n c.email c.display_name ≡ ok uid)

  pub maybe_provision-ProvisionEffect :
      (sesame : Option Provisioner) (c : Account) (w : World Control)
      → ProvisionEffect
          (GivenFor sesame w.tick c)
          c
          w.tables
          (maybe_provision st tenant_id caller sesame c w).0
          (maybe_provision st tenant_id caller sesame c w).1.tables
  unfolding provision_into_sesame
  maybe_provision-ProvisionEffect none c w = inl (refl, refl)
  maybe_provision-ProvisionEffect (some service) c w =
      let answer = service w.tick c.email c.display_name in
      given (provisioned st tenant_id caller c answer (next w))
        (provisioned-ProvisionEffect c answer (next w))
    where
      given :
          (r : Account × World Control)
          → ProvisionEffect
              (λ uid. service w.tick c.email c.display_name ≡ ok uid)
              c
              w.tables
              r.0
              r.1.tables
          → ProvisionEffect (GivenFor (some service) w.tick c) c w.tables r.0 r.1.tables
      given r (inl h) = inl h
      given r (inr (uid, updated, e, h, shown)) = inr (uid, updated, (service, refl, e), h, shown)

  -- A success created an account and then tried to provision it, at a round trip `n`; a failure did
  -- nothing, or created the account with its report lost.
  abbrev pub AccountEffect :
      CreateAccount → Control → Result ApiError Account × World Control → Type 0
  AccountEffect req s (ok a, w) =
      (c : Account) × (between : Control) × AccountCreated st tenant_id caller req s c between
      × (n : ℕ) × ProvisionEffect (GivenFor st.sesame n c) c between a w.tables
  AccountEffect req s (err e, w) =
      (w.tables ≡ s) ⊎ ((c : Account) × AccountCreated st tenant_id caller req s c w.tables)

  -- If it succeeds, the creation of an account has added one pending account with its audit
  -- entry, and has then made it active, with a second entry, with the identity that the configured
  -- identity service answered for the account's address and display name, or left it pending; if it
  -- fails, it has changed nothing, or has added the
  -- pending account with the report of its commit lost.
  pub create_account-AccountEffect :
      (req : CreateAccount) (w : World Control)
      → AccountEffect req w.tables (create_account st tenant_id caller req w)
  unfolding create_account
  create_account-AccountEffect req w = go _ (created-Commits st tenant_id caller req w)
    where
      go :
          (r : Result ApiError Account × World Control)
          → Commits (AccountCreated st tenant_id caller req w.tables) w.tables r
          → AccountEffect req w.tables (
              continue r (λ account w'.
                let (a, w'') = maybe_provision st tenant_id caller st.sesame account w' in
                (ok a, w'')))
      go (ok c, w') h = (c, w'.tables, h, w'.tick, maybe_provision-ProvisionEffect st.sesame c w')
      go (err e, w') h = h
