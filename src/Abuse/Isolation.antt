-- ===== src/Abuse/Isolation.antt =====
-- Requests about other tenants leave a tenant's decisions, items and audit trail alone.
use opengroupware.Prelude.{
  ◌≡◌, ◌≢◌, ◌∙◌, refl, Bool, true, false, Option, none, some, List, [], ◌∷◌, inl, inr, ◌⊎◌, ◌==◌,
  nat_eq, string_eq, arith, select, select-concat, select-update, update, All,
}
use opengroupware.Db.Errors.{db}
use opengroupware.Db.World.{Uuid, Time, World}
use opengroupware.Db.Connect.{Db}
use opengroupware.Db.Visible.{visible-mine}
use opengroupware.Db.Transaction.{tenant, session}
use opengroupware.Db.Audit.{AuditEntry, AuditRow}
use opengroupware.Db.Commits.{Commits-keeps, statement-Commits}
use opengroupware.Auth.Caller.{Caller}
use opengroupware.Abuse.Models.{AbuseDecision, QuarantineItem, RecordDecision}
use opengroupware.Abuse.Tables.{Quarantine, held_item, is_held, is_item, select_held}
use opengroupware.Abuse.Statements.{Held}
use opengroupware.Abuse.Routes.{list_quarantine}
use opengroupware.Abuse.Api.{
  AbuseRequest, post_decisions, get_quarantine, post_release, post_report, abuse_router,
  abuse_serve,
}
use opengroupware.Abuse.Effects.{
  logged, Recorded, record_decision-Commits, Release, release_item-Commits, Report,
  report_item-Commits,
}

abbrev is_about : Uuid → Option Uuid → Bool
is_about u none = false
is_about u (some t) = t == u

-- All that the tables hold of a tenant is as it was.
pub record SameOf (u : Uuid) (s s' : Quarantine) : Type 0 where
  pub decisions :
      select (λ (r : AbuseDecision). r.tenant_id == u) s'.abuse_decision
      ≡ select (λ (r : AbuseDecision). r.tenant_id == u) s.abuse_decision
  pub items :
      select (λ (r : QuarantineItem). r.tenant_id == u) s'.quarantine_item
      ≡ select (λ (r : QuarantineItem). r.tenant_id == u) s.quarantine_item
  pub trail :
      select (λ (r : AuditRow). is_about u r.entry.tenant_id) s'.audit_log
      ≡ select (λ (r : AuditRow). is_about u r.entry.tenant_id) s.audit_log

SameOf-refl : (u : Uuid) (s : Quarantine) → SameOf u s s
SameOf-refl u s = record { decisions = refl; items = refl; trail = refl }

SameOf-trans : {u : Uuid} {r s t : Quarantine} → SameOf u r s → SameOf u s t → SameOf u r t
SameOf-trans h k = record {
  decisions = k.decisions ∙ h.decisions;
  items = k.items ∙ h.items;
  trail = k.trail ∙ h.trail;
}

-- The tenant that a request names.
abbrev pub named : AbuseRequest → Uuid
named (post_decisions t req) = t
named (get_quarantine t) = t
named (post_release t item_id) = t
named (post_report t item_id req) = t

module _ (d : Db) (u t : Uuid) (on : d.rls ≡ true) (foreign : u ≢ t) where
  other : (t == u) ≡ false
  other = ground (arith, foreign)

  SameOf-logged :
      (now : Time) (e : AuditEntry) (s : Quarantine)
      → e.tenant_id ≡ some t
      → SameOf u s (logged now e s)
  SameOf-logged now e s own = record {
    decisions = refl;
    items = refl;
    trail =
        select-concat (λ (r : AuditRow). is_about u r.entry.tenant_id) s.audit_log
          (record { entry = e; created_at = now }) (rw own other);
  }

  SameOf-update :
      (p : QuarantineItem → Bool) (f : QuarantineItem → QuarantineItem) (s : Quarantine)
      → ((i : QuarantineItem) → p i ≡ true → i.tenant_id ≡ t)
      → ((i : QuarantineItem) → (f i).tenant_id ≡ i.tenant_id)
      → SameOf u s (record s { quarantine_item = update p f s.quarantine_item })
  SameOf-update p f s own kept = record {
    decisions = refl;
    items =
        select-update (λ (r : QuarantineItem). r.tenant_id == u) p f s.quarantine_item
          (λ i h. rw (own i h) other) (λ i h. rw (kept i, own i h) other);
    trail = refl;
  }

  SameOf-Held :
      (decision_id : Uuid) (req : RecordDecision) (now : Time) (s s' : Quarantine)
      → Held t decision_id req (session d (tenant t) now) s s'
      → SameOf u s s'
  SameOf-Held decision_id req now s s' (inl (_, same)) = rw same (SameOf-refl u s)
  SameOf-Held decision_id req now s s' (inr (id, _, grown)) = rw grown (record {
    decisions = refl;
    items =
        select-concat (λ (r : QuarantineItem). r.tenant_id == u) s.quarantine_item
          (held_item t decision_id req id now) other;
    trail = refl;
  })

  SameOf-Recorded :
      (caller : Caller) (req : RecordDecision) (s : Quarantine) (a : AbuseDecision)
      (s' : Quarantine)
      → Recorded d t caller req s a s'
      → SameOf u s s'
  SameOf-Recorded caller req s a s' r =
      rw r.tables_eq
        (SameOf-trans (SameOf-trans decided (held r.held)) (SameOf-logged r.now _ r.after refl))
    where
      decided : SameOf u s r.between
      decided = rw r.decided.tables_eq (record {
        decisions =
            select-concat (λ (x : AbuseDecision). x.tenant_id == u) s.abuse_decision a
              (rw r.decided.tenant_eq other);
        items = refl;
        trail = refl;
      })

      held :
          (((req.action ≡ "quarantine")
              × Held t a.id req (session d (tenant t) r.now) r.between r.after)
            ⊎ (((req.action == "quarantine") ≡ false) × (r.after ≡ r.between)))
          → SameOf u r.between r.after
      held (inl (_, h)) = SameOf-Held a.id req r.now r.between r.after h
      held (inr (_, same)) = rw same (SameOf-refl u r.between)

module _ (d : Db) (caller : Caller) (u : Uuid) (on : d.rls ≡ true) where
  abuse_router-SameOf :
      (req : AbuseRequest) (w : World Quarantine)
      → u ≢ named req
      → SameOf u w.tables (abuse_router d caller req w).tables
  unfolding abuse_router list_quarantine select_held
  abuse_router-SameOf (post_decisions t req) w foreign =
      Commits-keeps (Recorded d t caller req w.tables) (SameOf u w.tables) w.tables _
        (λ a s' r. SameOf-Recorded d u t on foreign caller req w.tables a s' r)
        (SameOf-refl u w.tables) (record_decision-Commits d t caller req w)
  abuse_router-SameOf (get_quarantine t) w foreign =
      Commits-keeps (λ _ s'. s' ≡ w.tables) (SameOf u w.tables) w.tables _
        (λ _ s' same. rw same (SameOf-refl u w.tables)) (SameOf-refl u w.tables)
        (statement-Commits (λ _ s'. s' ≡ w.tables) db d (tenant t) select_held w
          λ now id a s ran. ground arith)
  abuse_router-SameOf (post_release t item_id) w foreign =
      Commits-keeps (Release d t caller item_id w.tables) (SameOf u w.tables) w.tables _
        (λ i s' q.
          rw (q.tables_eq, q.row.tables_eq)
            (SameOf-trans
              (SameOf-update d u t on foreign (is_held (session d (tenant t) q.now) item_id) _
                w.tables (λ j h. visible-mine d t q.now j.tenant_id on (ground (arith, h)))
                (λ j. refl))
              (SameOf-logged d u t on foreign q.now _ _ refl)))
        (SameOf-refl u w.tables) (release_item-Commits d t caller item_id w)
  abuse_router-SameOf (post_report t item_id req) w foreign =
      Commits-keeps (Report d t caller item_id req w.tables) (SameOf u w.tables) w.tables _
        (λ i s' q.
          rw (q.tables_eq, q.row.tables_eq)
            (SameOf-trans
              (SameOf-update d u t on foreign (is_item (session d (tenant t) q.now) item_id) _
                w.tables (λ j h. visible-mine d t q.now j.tenant_id on (ground (arith, h)))
                (λ j. refl))
              (SameOf-logged d u t on foreign q.now _ _ refl)))
        (SameOf-refl u w.tables) (report_item-Commits d t caller item_id req w)

-- Policies apply to the role. Then no sequence of requests about other tenants changes a tenant's
-- decisions, quarantine items or audit trail.
pub abuse_serve-SameOf :
    (d : Db) (requests : List (Caller × AbuseRequest)) (u : Uuid) (w : World Quarantine)
    → d.rls ≡ true
    → All (λ (r : Caller × AbuseRequest). u ≢ named r.1) requests
    → SameOf u w.tables (abuse_serve d requests w).tables
unfolding abuse_serve
abuse_serve-SameOf d [] u w on foreign = SameOf-refl u w.tables
abuse_serve-SameOf d ((caller, req) ∷ rest) u w on (other, foreign) =
    SameOf-trans (abuse_router-SameOf d caller u on req w other)
      (abuse_serve-SameOf d rest u (abuse_router d caller req w) on foreign)
