-- ===== src/Abuse/Decisions.antt =====
-- What `record_decision` of crates/abuse-api/src/routes.rs stores, column by column.
use opengroupware.Prelude.{
  ◌≡◌, ◌≢◌, refl, ap, true, false, none, List, [], ◌∷◌, ◌++◌, inl, inr, ◌⊎◌, ◌==◌, ◌&&◌, nat_eq,
  string_eq, str_iff, any, ok, arith,
}
use opengroupware.Prelude.Decimal.{◌⊕◌, fmt1}
use opengroupware.Db.World.{Uuid, Time, World}
use opengroupware.Db.Connect.{Db}
use opengroupware.Db.Transaction.{tenant, session}
use opengroupware.Db.Audit.{
  Value, null, int, float, boolean, uuid, arr, nil, obj, end, field, text, number,
}
use opengroupware.Db.Commits.{Commits}
use opengroupware.Auth.Caller.{Caller}
use opengroupware.Abuse.Models.{AbuseDecision, QuarantineItem, RecordDecision}
use opengroupware.Abuse.Tables.{Quarantine, reason_of}
use opengroupware.Abuse.Statements.{Held, Decided}
use opengroupware.Abuse.Routes.{validate_decision, symbols_of, record_decision}
use opengroupware.Abuse.Effects.{Recorded, record_decision-Commits}
use opengroupware.Abuse.Outcomes.{Commits-as, entry_of}

module _ (d : Db) (t : Uuid) (caller : Caller) where
  -- The items, and those of later: a message whose action is `quarantine` becomes held, unless its
  -- tenant has an item of it already; no other one does.
  abbrev pub Quarantined :
      RecordDecision
      → (decision_id : Uuid) → (now : Time) → (items later : List QuarantineItem) → Type 0
  Quarantined req decision_id now items later =
      ((req.action ≢ "quarantine") × (later ≡ items))
      ⊎ ((req.action ≡ "quarantine")
          × (any (λ (r : QuarantineItem). r.tenant_id == t && r.message_ref == req.message_ref)
                items
              ≡ true)
          × (later ≡ items))
      ⊎ ((id : Uuid) × (req.action ≡ "quarantine")
          × (any (λ (r : QuarantineItem). r.tenant_id == t && r.message_ref == req.message_ref)
                items
              ≡ false)
          × (later
              ≡ items
                ++ record {
                  id = id;
                  tenant_id = t;
                  decision_id = decision_id;
                  message_ref = req.message_ref;
                  recipient = req.recipient;
                  sender = req.sender;
                  subject = req.subject;
                  reason = req.verdict ⊕ " (score " ⊕ fmt1 req.score ⊕ ")";
                  status = "held";
                  reported_as = none;
                  held_at = now;
                  resolved_at = none;
                  resolved_by = none;
                }
                  ∷ []))

  -- The decision `a` as a row, the message put in quarantine when it must be, and the entry.
  pub record DecisionKept (req : RecordDecision) (s : Quarantine) (a : AbuseDecision)
      (s' : Quarantine) : Type 0 where
    pub now : Time
    pub valid : validate_decision req ≡ ok tt
    pub decided :
        Decided t req
          (symbols_of req.symbols)
          (session d (tenant t) now)
          s
          a
          (record s { abuse_decision = s.abuse_decision ++ a ∷ [] })
    pub symbols_eq :
        ((req.symbols ≡ null) × (a.symbols ≡ arr nil))
        ⊎ ((req.symbols ≢ null) × (a.symbols ≡ req.symbols))
    pub decisions : s'.abuse_decision ≡ s.abuse_decision ++ a ∷ []
    pub items : Quarantined req a.id now s.quarantine_item s'.quarantine_item
    pub logged_eq :
        s'.audit_log
        ≡ s.audit_log
          ++ entry_of t caller "abuse.decision" "abuse_decision" a.id
              (obj (
                field "action" (text req.action) (
                  field "verdict" (text req.verdict) (
                    field "score"
                      (number req.score)
                      (field "message_ref" (text req.message_ref) end)))))
              now
            ∷ []

  held-Quarantined :
      (req : RecordDecision) (decision_id : Uuid) (now : Time) (between after : Quarantine)
      → (((req.action ≡ "quarantine")
            × Held t decision_id req (session d (tenant t) now) between after)
          ⊎ (((req.action == "quarantine") ≡ false) × (after ≡ between)))
      → Quarantined req decision_id now between.quarantine_item after.quarantine_item
        × (after.abuse_decision ≡ between.abuse_decision)
        × (after.audit_log ≡ between.audit_log)
  unfolding reason_of
  held-Quarantined req decision_id now between after (inl (on, inl (old, same))) = (
    inr (inl (on, old, ap (λ (x : Quarantine). x.quarantine_item) same)),
    ap (λ (x : Quarantine). x.abuse_decision) same,
    ap (λ (x : Quarantine). x.audit_log) same,
  )
  held-Quarantined req decision_id now between after (inl (on, inr (id, new, same))) = (
    inr (inr (id, on, new, ap (λ (x : Quarantine). x.quarantine_item) same)),
    ap (λ (x : Quarantine). x.abuse_decision) same,
    ap (λ (x : Quarantine). x.audit_log) same,
  )
  held-Quarantined req decision_id now between after (inr (off, same)) = (
    inl (
      λ on. ground (arith, off, (str_iff req.action "quarantine").1 on),
      ap (λ (x : Quarantine). x.quarantine_item) same,
    ),
    ap (λ (x : Quarantine). x.abuse_decision) same,
    ap (λ (x : Quarantine). x.audit_log) same,
  )

  sent : (v : Value) → ((v ≡ null) × (symbols_of v ≡ arr nil)) ⊎ ((v ≢ null) × (symbols_of v ≡ v))
  unfolding symbols_of
  sent null = inl (refl, refl)
  sent (int n) = inr (λ e. cc, refl)
  sent (float x) = inr (λ e. cc, refl)
  sent (boolean b) = inr (λ e. cc, refl)
  sent (text s) = inr (λ e. cc, refl)
  sent (uuid u) = inr (λ e. cc, refl)
  sent (arr vs) = inr (λ e. cc, refl)
  sent (obj fs) = inr (λ e. cc, refl)

  Recorded-DecisionKept :
      (req : RecordDecision) (s : Quarantine) (a : AbuseDecision) (s' : Quarantine)
      → Recorded d t caller req s a s'
      → DecisionKept req s a s'
  Recorded-DecisionKept req s a s' q =
      let (items, decisions, log) = held-Quarantined req a.id q.now q.between q.after q.held in
      record {
        now = q.now;
        valid = q.valid;
        decided = rw (← q.decided.tables_eq) q.decided;
        symbols_eq = rw q.decided.symbols_eq (sent req.symbols);
        decisions = rw (q.tables_eq, decisions, q.decided.tables_eq) refl;
        items =
            rw (q.tables_eq, ← ap (λ (x : Quarantine). x.quarantine_item) q.decided.tables_eq)
              items;
        logged_eq = rw (q.tables_eq, log, q.decided.tables_eq) refl;
      }

  -- If it succeeds, recording a decision has added exactly the decision that was sent, every column
  -- of it, has held the message if and only if the action is `quarantine` and the tenant's quarantine
  -- has no item of that message, whatever its status, and has written one audit entry with what was
  -- decided; if it fails, it has changed nothing, or has done just that with the report of its commit
  -- lost.
  pub record_decision-DecisionKept :
      (req : RecordDecision) (w : World Quarantine)
      → Commits (DecisionKept req w.tables) w.tables (record_decision d t caller req w)
  record_decision-DecisionKept req w =
      Commits-as (Recorded d t caller req w.tables) (DecisionKept req w.tables) w.tables _
        (Recorded-DecisionKept req w.tables) (record_decision-Commits d t caller req w)
