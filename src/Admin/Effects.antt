-- ===== src/Admin/Effects.antt =====
-- What each handler of Admin/Routes does to the tables, and that it does all of it or nothing.
use opengroupware.Prelude.{◌≡◌, refl, [], ◌∷◌, ◌++◌, Result, ok, err, inl}
use opengroupware.Db.Errors.{ApiError, db}
use opengroupware.Db.World.{Uuid, Time, World, Io}
use opengroupware.Db.Transaction.{tenant, platform, session, transact}
use opengroupware.Db.Audit.{AuditEntry}
use opengroupware.Db.Commits.{Commits, audited-Commits}
use opengroupware.Auth.Caller.{Caller}
use opengroupware.Admin.Models.{
  Tenant, Domain, AbusePolicy, CreateTenant, CreateDomain, SetAbusePolicy,
}
use opengroupware.Admin.Validate.{validate_slug, validate_fqdn, validate_policy}
use opengroupware.Admin.Tables.{Control, control_audit, insert_tenant, insert_domain, upsert_policy}
use opengroupware.Admin.Statements.{
  NewTenant, insert_tenant-NewTenant, NewDomain, insert_domain-NewDomain, SetPolicy,
  upsert_policy-SetPolicy,
}
use opengroupware.Admin.Routes.{
  AppState, validated, tenant_entry, create_tenant_tx, create_tenant, domain_entry,
  create_domain_tx, create_domain, policy_entry, put_policy_tx, put_policy,
}

-- The audit log grows by this entry, written at this time.
abbrev pub audited : Time → AuditEntry → Control → Control
audited now e s = record s {
  audit_log = s.audit_log ++ record { entry = e; created_at = now } ∷ [];
}

module _ {A : Type 0} (Q : A → Control → Type 0) where
  pub validated-Commits :
      (r : Result ApiError Unit) (m : Io Control ApiError A) (w : World Control)
      → (r ≡ ok tt → Commits Q w.tables (m w))
      → Commits Q w.tables (validated r m w)
  validated-Commits (ok tt) m w h = h refl
  validated-Commits (err e) m w h = inl refl

-- Exactly the new row and its audit entry, at the time of the transaction.
pub record TenantCreated (st : AppState) (caller : Caller) (req : CreateTenant) (s : Control)
    (t : Tenant) (s' : Control) : Type 0 where
  pub now : Time
  pub between : Control
  pub valid : validate_slug req.slug ≡ ok tt
  pub row : NewTenant req.slug req.name req.plan (session st.db platform now) s t between
  pub tables_eq : s' ≡ audited now (tenant_entry caller t) between

-- If it succeeds, the creation of a tenant has added exactly the tenant that was asked for, with
-- a valid and unused slug, and its audit entry; if it fails, it has changed nothing, or has done
-- just that with the report of its commit lost.
pub create_tenant-Commits :
    (st : AppState) (caller : Caller) (req : CreateTenant) (w : World Control)
    → Commits (TenantCreated st caller req w.tables) w.tables (create_tenant st caller req w)
unfolding create_tenant
create_tenant-Commits st caller req w =
    validated-Commits (TenantCreated st caller req w.tables) (validate_slug req.slug)
      (transact db st.db platform (create_tenant_tx caller req)) w
      λ valid.
        audited-Commits (TenantCreated st caller req w.tables) db st.db platform
          (insert_tenant req.slug req.name req.plan) (tenant_entry caller) w
          λ now id t s ran. record {
            now = now;
            between = s;
            valid = valid;
            row = insert_tenant-NewTenant _ _ _ _ id _ t s ran;
            tables_eq = refl;
          }

pub record DomainCreated (st : AppState) (tenant_id : Uuid) (caller : Caller) (req : CreateDomain)
    (s : Control) (d : Domain) (s' : Control) : Type 0 where
  pub now : Time
  pub between : Control
  pub valid : validate_fqdn req.fqdn ≡ ok tt
  pub row : NewDomain tenant_id req.fqdn (session st.db (tenant tenant_id) now) s d between
  pub tables_eq : s' ≡ audited now (domain_entry tenant_id caller d) between

-- If it succeeds, the creation of a domain has added exactly the domain that was asked for, with
-- a valid and unused name, for an existing tenant, and its audit entry; if it fails, it has
-- changed nothing, or has done just that with the report of its commit lost.
pub create_domain-Commits :
    (st : AppState) (tenant_id : Uuid) (caller : Caller) (req : CreateDomain) (w : World Control)
    → Commits
        (DomainCreated st tenant_id caller req w.tables)
        w.tables
        (create_domain st tenant_id caller req w)
unfolding create_domain
create_domain-Commits st tenant_id caller req w =
    validated-Commits (DomainCreated st tenant_id caller req w.tables) (validate_fqdn req.fqdn)
      (transact db st.db (tenant tenant_id) (create_domain_tx tenant_id caller req)) w
      λ valid.
        audited-Commits (DomainCreated st tenant_id caller req w.tables) db st.db (tenant tenant_id)
          (insert_domain tenant_id req.fqdn) (domain_entry tenant_id caller) w
          λ now id d s ran. record {
            now = now;
            between = s;
            valid = valid;
            row = insert_domain-NewDomain _ _ _ id _ d s ran;
            tables_eq = refl;
          }

pub record PolicySet (st : AppState) (tenant_id : Uuid) (caller : Caller) (req : SetAbusePolicy)
    (s : Control) (p : AbusePolicy) (s' : Control) : Type 0 where
  pub now : Time
  pub between : Control
  pub valid : validate_policy req ≡ ok tt
  pub row :
      SetPolicy tenant_id req.reject req.add_header req.greylist
        (session st.db (tenant tenant_id) now)
        s
        p
        between
  pub tables_eq : s' ≡ audited now (policy_entry tenant_id caller req) between

-- If it succeeds, setting a policy has made exactly the valid thresholds that were sent the
-- policy of the tenant, and written its audit entry; if it fails, it has changed nothing, or has
-- done just that with the report of its commit lost.
pub put_policy-Commits :
    (st : AppState) (tenant_id : Uuid) (caller : Caller) (req : SetAbusePolicy) (w : World Control)
    → Commits
        (PolicySet st tenant_id caller req w.tables)
        w.tables
        (put_policy st tenant_id caller req w)
unfolding put_policy
put_policy-Commits st tenant_id caller req w =
    validated-Commits (PolicySet st tenant_id caller req w.tables) (validate_policy req)
      (transact db st.db (tenant tenant_id) (put_policy_tx tenant_id caller req)) w
      λ valid.
        audited-Commits (PolicySet st tenant_id caller req w.tables) db st.db (tenant tenant_id)
          (upsert_policy tenant_id req.reject req.add_header req.greylist)
          (λ _. policy_entry tenant_id caller req) w
          λ now id p s ran. record {
            now = now;
            between = s;
            valid = valid;
            row = upsert_policy-SetPolicy _ _ _ _ _ id _ p s ran;
            tables_eq = refl;
          }
