-- ===== src/Admin/Trail.antt =====
-- No change without an audit entry, and no audit entry changes or goes away.
use mathlib.Core.List.{append-nil, append_assoc}
use opengroupware.Prelude.{
  ◌≡◌, refl, sym, ap, inl, inr, String, List, [], ◌∷◌, ◌++◌, Result, ok, err, All, All-append,
  length, length-append, ◌≤◌, ◌*◌, arith,
}
use opengroupware.Db.Errors.{ApiError}
use opengroupware.Db.World.{Uuid, Time, World}
use opengroupware.Db.Audit.{AuditEntry, AuditRow}
use opengroupware.Db.Commits.{Commits-keeps}
use opengroupware.Auth.Caller.{Caller}
use opengroupware.Admin.Models.{Account, CreateAccount}
use opengroupware.Admin.Tables.{Control}
use opengroupware.Admin.Routes.{AppState}
use opengroupware.Admin.Api.{
  Request, post_tenants, get_tenants, post_domains, get_domains, post_accounts, get_accounts,
  get_abuse_policy, put_abuse_policy, router, serve,
}
use opengroupware.Admin.Effects.{
  audited, TenantCreated, create_tenant-Commits, DomainCreated, create_domain-Commits, PolicySet,
  put_policy-Commits,
}
use opengroupware.Admin.Accounts.{
  AccountCreated, ProvisionEffect, AccountEffect, create_account-AccountEffect,
}
use opengroupware.Admin.Invariant.{
  list_tenants-unchanged, list_domains-unchanged, list_accounts-unchanged, get_policy-unchanged,
}

-- The log has grown by entries of this actor, at most two; where it has not grown, nothing changed.
pub record IsRecorded (actor : String) (s s' : Control) : Type 0 where
  pub entries : List AuditRow
  pub grown : s'.audit_log ≡ s.audit_log ++ entries
  pub by_actor : All (λ (r : AuditRow). r.entry.actor ≡ actor) entries
  pub few : length entries ≤ 2
  pub silent : entries ≡ [] → s' ≡ s

module _ (actor : String) where
  IsRecorded-refl : (s : Control) → IsRecorded actor s s
  IsRecorded-refl s = record {
    entries = [];
    grown = sym (append-nil _);
    by_actor = tt;
    few = omega arith;
    silent = λ _. refl;
  }

  IsRecorded-of-eq : (s s' : Control) → s' ≡ s → IsRecorded actor s s'
  IsRecorded-of-eq s s' e = rw e (IsRecorded-refl s)

  -- A change of other tables and the one entry for it.
  IsRecorded-one :
      (s between s' : Control) (now : Time) (e : AuditEntry)
      → between.audit_log ≡ s.audit_log
      → e.actor ≡ actor
      → s' ≡ audited now e between
      → IsRecorded actor s s'
  IsRecorded-one s between s' now e kept mine same = record {
    entries = record { entry = e; created_at = now } ∷ [];
    grown = rw (same, kept);
    by_actor = (mine, tt);
    few = omega arith;
    silent = λ h. cc;
  }

  -- Two such changes, one after the other.
  IsRecorded-two :
      (s between s' t' : Control) (now : Time) (e : AuditEntry)
      → (h : IsRecorded actor s s') → length h.entries ≤ 1
      → between.audit_log ≡ s'.audit_log
      → e.actor ≡ actor
      → t' ≡ audited now e between
      → IsRecorded actor s t'
  IsRecorded-two s between s' t' now e h short kept mine same =
      let row : AuditRow = record { entry = e; created_at = now } in
      record {
        entries = h.entries ++ row ∷ [];
        grown = rw (same, kept, h.grown) (append_assoc s.audit_log h.entries (row ∷ []));
        by_actor = All-append _ h.entries (row ∷ []) h.by_actor (mine, tt);
        few = omega (arith, length-append h.entries (row ∷ []));
        silent = λ none. absurd (append-not-nil h.entries row none);
      }
    where
      append-not-nil : (xs : List AuditRow) (x : AuditRow) → xs ++ x ∷ [] ≡ [] → ⊥
      append-not-nil [] x e = cc
      append-not-nil (y ∷ ys) x e = cc

module _ (st : AppState) (caller : Caller) where
  created-IsRecorded :
      (t : Uuid) (req : CreateAccount) (s : Control) (a : Account) (s' : Control)
      → AccountCreated st t caller req s a s'
      → (h : IsRecorded caller.subject s s') × (length h.entries ≤ 1)
  unfolding IsRecorded-one
  created-IsRecorded t req s a s' c = (
    IsRecorded-one caller.subject s c.between s' c.now _
        (ap (λ (x : Control). x.audit_log) c.row.tables_eq) refl c.tables_eq,
    omega arith,
  )

  provisioned-IsRecorded :
      {Given : Uuid → Type 0} (t : Uuid) (c : Account) (s between : Control) (a : Account)
      (s' : Control)
      → (h : IsRecorded caller.subject s between) → length h.entries ≤ 1
      → ProvisionEffect st t caller Given c between a s'
      → IsRecorded caller.subject s s'
  provisioned-IsRecorded t c s between a s' h short (inl (_, same)) = rw same h
  provisioned-IsRecorded t c s between a s' h short (inr (uid, updated, _, p, _)) =
      IsRecorded-two caller.subject s p.between between s' p.now _ h short
        (ap (λ (x : Control). x.audit_log) p.row.tables_eq) refl p.tables_eq

  account-IsRecorded :
      (t : Uuid) (req : CreateAccount) (s : Control) (r : Result ApiError Account × World Control)
      → AccountEffect st t caller req s r
      → IsRecorded caller.subject s r.1.tables
  account-IsRecorded t req s (ok a, w) (c, between, created, n, rest) =
      let (h, short) = created-IsRecorded t req s c between created in
      provisioned-IsRecorded t c s between a w.tables h short rest
  account-IsRecorded t req s (err e, w) (inl same) = IsRecorded-of-eq caller.subject s w.tables same
  account-IsRecorded t req s (err e, w) (inr (c, created)) =
      (created-IsRecorded t req s c w.tables created).0

  -- A request adds at most two audit entries at the end of the log, all of them with the caller's
  -- subject as actor; if it adds none, it has changed nothing at all.
  pub router-IsRecorded :
      (req : Request) (w : World Control)
      → IsRecorded caller.subject w.tables (router st caller req w).tables
  unfolding router
  router-IsRecorded (post_tenants req) w =
      Commits-keeps (TenantCreated st caller req w.tables) (IsRecorded caller.subject w.tables)
        w.tables _
        (λ t s' q.
          IsRecorded-one caller.subject w.tables q.between s' q.now _
            (ap (λ (x : Control). x.audit_log) q.row.tables_eq) refl q.tables_eq)
        (IsRecorded-refl caller.subject w.tables) (create_tenant-Commits st caller req w)
  router-IsRecorded get_tenants w =
      IsRecorded-of-eq caller.subject _ _ (list_tenants-unchanged st w)
  router-IsRecorded (post_domains t req) w =
      Commits-keeps (DomainCreated st t caller req w.tables) (IsRecorded caller.subject w.tables)
        w.tables _
        (λ d s' q.
          IsRecorded-one caller.subject w.tables q.between s' q.now _
            (ap (λ (x : Control). x.audit_log) q.row.tables_eq) refl q.tables_eq)
        (IsRecorded-refl caller.subject w.tables) (create_domain-Commits st t caller req w)
  router-IsRecorded (get_domains t) w =
      IsRecorded-of-eq caller.subject _ _ (list_domains-unchanged st t w)
  router-IsRecorded (post_accounts t req) w =
      account-IsRecorded t req w.tables _ (create_account-AccountEffect st t caller req w)
  router-IsRecorded (get_accounts t) w =
      IsRecorded-of-eq caller.subject _ _ (list_accounts-unchanged st t w)
  router-IsRecorded (get_abuse_policy t) w =
      IsRecorded-of-eq caller.subject _ _ (get_policy-unchanged st t w)
  router-IsRecorded (put_abuse_policy t req) w =
      Commits-keeps (PolicySet st t caller req w.tables) (IsRecorded caller.subject w.tables)
        w.tables _
        (λ p s' q.
          IsRecorded-one caller.subject w.tables q.between s' q.now _
            (ap (λ (x : Control). x.audit_log) q.row.tables_eq) refl q.tables_eq)
        (IsRecorded-refl caller.subject w.tables) (put_policy-Commits st t caller req w)

-- Over any sequence of requests the audit log is append-only, and what is appended has at most two
-- entries for each request.
pub serve-audit_log :
    (st : AppState) (requests : List (Caller × Request)) (w : World Control)
    → (entries : List AuditRow) × ((serve st requests w).tables.audit_log
        ≡ w.tables.audit_log ++ entries)
      × (length entries ≤ 2 * length requests)
unfolding serve
serve-audit_log st [] w = ([], sym (append-nil _), omega arith)
serve-audit_log st ((caller, req) ∷ rest) w =
    let first = router-IsRecorded st caller req w in
    let (later, grown, few) = serve-audit_log st rest (router st caller req w) in
    (
      first.entries ++ later,
      rw (grown, first.grown) (append_assoc w.tables.audit_log first.entries later),
      omega (arith, first.few, length-append first.entries later),
    )
