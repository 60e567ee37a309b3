-- ===== src/Abuse/Effects.antt =====
-- What each handler of Abuse/Routes does to the tables, and that it does all of it or nothing.
use opengroupware.Prelude.{
  ◌≡◌, refl, Bool, true, false, Option, none, some, [], ◌∷◌, ◌++◌, Result, ok, err, inl, inr, ◌⊎◌,
  ◌==◌, string_eq, str_iff,
}
use opengroupware.Db.Errors.{ApiError, db}
use opengroupware.Db.World.{Uuid, Time, World, Io}
use opengroupware.Db.Connect.{Db}
use opengroupware.Db.Session.{Session}
use opengroupware.Db.Transaction.{pure, ◌>>◌, tenant, session, transact}
use opengroupware.Db.Audit.{AuditEntry, record_entry}
use opengroupware.Db.Commits.{Commits, Yields, transact-Commits, exec-Yields, record_entry-Yields}
use opengroupware.Auth.Caller.{Caller, actor}
use opengroupware.Abuse.Models.{AbuseDecision, QuarantineItem, RecordDecision, ReportFeedback}
use opengroupware.Abuse.Tables.{
  Quarantine, quarantine_audit, insert_decision, insert_item, is_held, released, release, is_item,
  reported, report,
}
use opengroupware.Abuse.Statements.{
  Decided, insert_decision-Decided, Held, insert_item-Held, Updated, release-Updated,
  report-Updated,
}
use opengroupware.Abuse.Routes.{
  validate_decision, symbols_of, decision_entry, held_tx, item_tx, record_decision_tx, validated,
  record_decision, release_entry, release_tx, release_item, validate_feedback, report_entry,
  report_tx, report_item,
}

-- The audit log grows by this entry, written at this time.
abbrev pub logged : Time → AuditEntry → Quarantine → Quarantine
logged now e s = record s { audit_log = s.audit_log ++ record { entry = e; created_at = now } ∷ [] }

module _ {A : Type 0} (Q : A → Quarantine → Type 0) where
  validated-Commits :
      (r : Result ApiError Unit) (m : Io Quarantine ApiError A) (w : World Quarantine)
      → (r ≡ ok tt → Commits Q w.tables (m w))
      → Commits Q w.tables (validated r m w)
  validated-Commits (ok tt) m w h = h refl
  validated-Commits (err e) m w h = inl refl

-- Without an item there is an error; with one, its audit entry is all that follows.
item_tx-Yields :
    (Q : QuarantineItem → Quarantine → Type 0) (e : QuarantineItem → AuditEntry) (se : Session)
    (w : World Quarantine) (s : Quarantine) (found : Option QuarantineItem)
    → w.tables ≡ s
    → ((i : QuarantineItem) → found ≡ some i → Q i (logged se.started (e i) s))
    → Yields Q (item_tx e found se w)
item_tx-Yields Q e se w s none same h = tt
item_tx-Yields Q e se w s (some i) same h =
    record_entry-Yields Q db (e i) i se w (rw same (h i refl))

module _ (d : Db) (tenant_id : Uuid) (caller : Caller) where
  -- The decision and its audit entry; and the message held if and only if the action says so.
  pub record Recorded (req : RecordDecision) (s : Quarantine) (a : AbuseDecision) (s' : Quarantine)
      : Type 0 where
    pub now : Time
    pub between : Quarantine
    pub after : Quarantine
    pub valid : validate_decision req ≡ ok tt
    pub decided :
        Decided tenant_id req
          (symbols_of req.symbols)
          (session d (tenant tenant_id) now)
          s
          a
          between
    pub held :
        ((req.action ≡ "quarantine")
          × Held tenant_id a.id req (session d (tenant tenant_id) now) between after)
        ⊎ (((req.action == "quarantine") ≡ false) × (after ≡ between))
    pub tables_eq : s' ≡ logged now (decision_entry tenant_id caller req a) after

  -- If it succeeds, recording a decision has added exactly the decision that was sent, held the
  -- message if and only if the action is `quarantine` (once for each message of a tenant), and
  -- written the audit entry; if it fails, it has changed nothing, or has done just that with the
  -- report of its commit lost.
  pub record_decision-Commits :
      (req : RecordDecision) (w : World Quarantine)
      → Commits (Recorded req w.tables) w.tables (record_decision d tenant_id caller req w)
  unfolding record_decision
  record_decision-Commits req w =
      validated-Commits (Recorded req w.tables) (validate_decision req)
        (transact db d (tenant tenant_id) (record_decision_tx tenant_id caller req)) w
        λ valid.
          transact-Commits (Recorded req w.tables) db d (tenant tenant_id)
            (record_decision_tx tenant_id caller req) w
            λ now w' same.
              exec-Yields (Recorded req w.tables) db
                (insert_decision tenant_id req (symbols_of req.symbols))
                (held_tx (req.action == "quarantine") tenant_id caller req)
                (session d (tenant tenant_id) now) w'
                λ id a s w'' ran same'.
                  held-Yields valid now w' w'' id a s same ran same' (req.action == "quarantine")
                    refl
    where
      held-Yields :
          validate_decision req ≡ ok tt
          → (now : Time) (w' w'' : World Quarantine) (id : Uuid) (a : AbuseDecision)
            (s : Quarantine)
          → w'.tables ≡ w.tables
          → insert_decision tenant_id req
              (symbols_of req.symbols)
              (session d (tenant tenant_id) now)
              id
              w'.tables
            ≡ ok (a, s)
          → w''.tables ≡ s
          → (q : Bool) → (req.action == "quarantine") ≡ q
          → Yields
              (Recorded req w.tables)
              (held_tx q tenant_id caller req a (session d (tenant tenant_id) now) w'')
      held-Yields valid now w' w'' id a s same ran same' true on =
          exec-Yields (Recorded req w.tables) db (insert_item tenant_id a.id req)
            (λ _. record_entry db (decision_entry tenant_id caller req a) >> pure a)
            (session d (tenant tenant_id) now) w''
            λ id' u s' w3 ran' same3.
              record_entry-Yields (Recorded req w.tables) db (decision_entry tenant_id caller req a)
                a (session d (tenant tenant_id) now) w3
                (record {
                  now = now;
                  between = s;
                  after = s';
                  valid = valid;
                  decided = insert_decision-Decided tenant_id req _ _ id _ a s (rw same at ran);
                  held = inl (
                    (str_iff _ _).0 on,
                    insert_item-Held tenant_id a.id req _ id' s u s' (rw same' at ran'),
                  );
                  tables_eq = rw same3;
                })
      held-Yields valid now w' w'' id a s same ran same' false off =
          record_entry-Yields (Recorded req w.tables) db (decision_entry tenant_id caller req a) a
            (session d (tenant tenant_id) now) w''
            (record {
              now = now;
              between = s;
              after = s;
              valid = valid;
              decided = insert_decision-Decided tenant_id req _ _ id _ a s (rw same at ran);
              held = inr (off, refl);
              tables_eq = rw same';
            })

  -- The held item of that identifier is released, and the entry for it written.
  pub record Release (item_id : Uuid) (s : Quarantine) (i : QuarantineItem) (s' : Quarantine)
      : Type 0 where
    pub now : Time
    pub between : Quarantine
    pub row :
        Updated
          (is_held (session d (tenant tenant_id) now) item_id)
          (released (actor caller) now)
          s
          i
          between
    pub tables_eq : s' ≡ logged now (release_entry tenant_id caller i) between

  -- If it succeeds, a release has released the held item of that identifier that the tenant sees,
  -- and written its audit entry; if it fails, it has changed nothing, or has done just that with
  -- the report of its commit lost.
  pub release_item-Commits :
      (item_id : Uuid) (w : World Quarantine)
      → Commits (Release item_id w.tables) w.tables (release_item d tenant_id item_id caller w)
  unfolding release_item
  release_item-Commits item_id w =
      transact-Commits (Release item_id w.tables) db d (tenant tenant_id)
        (release_tx tenant_id item_id caller) w
        λ now w' same.
          exec-Yields (Release item_id w.tables) db (release item_id (actor caller))
            (item_tx (release_entry tenant_id caller)) (session d (tenant tenant_id) now) w'
            λ id found s w'' ran same'.
              item_tx-Yields (Release item_id w.tables) (release_entry tenant_id caller)
                (session d (tenant tenant_id) now) w'' s found same'
                λ i one. record {
                  now = now;
                  between = s;
                  row = release-Updated item_id (actor caller) _ id _ i s (rw (same, one) at ran);
                  tables_eq = refl;
                }

  -- The item of that identifier has the verdict, and the entry for it is written.
  pub record Report (item_id : Uuid) (req : ReportFeedback) (s : Quarantine) (i : QuarantineItem)
      (s' : Quarantine) : Type 0 where
    pub now : Time
    pub between : Quarantine
    pub valid : validate_feedback req ≡ ok tt
    pub row :
        Updated
          (is_item (session d (tenant tenant_id) now) item_id)
          (reported req.verdict)
          s
          i
          between
    pub tables_eq : s' ≡ logged now (report_entry tenant_id caller req i) between

  -- If it succeeds, a report has noted a valid verdict at the item of that identifier that the
  -- tenant sees, and written its audit entry; if it fails, it has changed nothing, or has done
  -- just that with the report of its commit lost.
  pub report_item-Commits :
      (item_id : Uuid) (req : ReportFeedback) (w : World Quarantine)
      → Commits
          (Report item_id req w.tables)
          w.tables
          (report_item d tenant_id item_id caller req w)
  unfolding report_item
  report_item-Commits item_id req w =
      validated-Commits (Report item_id req w.tables) (validate_feedback req)
        (transact db d (tenant tenant_id) (report_tx tenant_id item_id caller req)) w
        λ valid.
          transact-Commits (Report item_id req w.tables) db d (tenant tenant_id)
            (report_tx tenant_id item_id caller req) w
            λ now w' same.
              exec-Yields (Report item_id req w.tables) db (report item_id req.verdict)
                (item_tx (report_entry tenant_id caller req)) (session d (tenant tenant_id) now) w'
                λ id found s w'' ran same'.
                  item_tx-Yields (Report item_id req w.tables) (report_entry tenant_id caller req)
                    (session d (tenant tenant_id) now) w'' s found same'
                    λ i one. record {
                      now = now;
                      between = s;
                      valid = valid;
                      row = report-Updated item_id req.verdict _ id _ i s (rw (same, one) at ran);
                      tables_eq = refl;
                    }
