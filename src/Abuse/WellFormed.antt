-- ===== src/Abuse/WellFormed.antt =====
-- What holds of the tables of the abuse service at all times, and that its statements keep it.
use opengroupware.Prelude.{
  String, ◌≡◌, ◌≢◌, ◌∙◌, refl, ap, subst, ◌⊎◌, inl, inr, Bool, true, ◌&&◌, Option, none, some, List,
  [], ◌∷◌, ◌==◌, nat_eq, string_eq, nat_beq_iff, str_iff, Eq, arith, any, any-append, All,
  All-concat, All-update, All-update_at, All-weaken, Distinct, Distinct-concat, Distinct-update,
  update,
}
use opengroupware.Db.World.{Uuid, Time}
use opengroupware.Db.Session.{Session}
use opengroupware.Db.Audit.{AuditRow, Value}
use opengroupware.Abuse.Models.{AbuseDecision, QuarantineItem, RecordDecision}
use opengroupware.Abuse.Tables.{Quarantine, decision_check, held_item, released, reported}
use opengroupware.Abuse.Statements.{Decided, Held, Updated}

abbrev pub DecisionOk : AbuseDecision → Type 0
DecisionOk d = decision_check d.direction d.action d.verdict ≡ true

-- The decision that an item refers to is there, and is of the same tenant.
abbrev pub is_decision_of : QuarantineItem → AbuseDecision → Bool
is_decision_of i d = d.id == i.decision_id && d.tenant_id == i.tenant_id

abbrev pub IsBacked : List AbuseDecision → QuarantineItem → Type 0
IsBacked ds i = any (is_decision_of i) ds ≡ true

-- An item is held and unresolved, or released, and then it says when and by whom.
abbrev pub IsResolved : QuarantineItem → Type 0
IsResolved i =
    ((i.status ≡ "held") × (i.resolved_at ≡ none) × (i.resolved_by ≡ none))
    ⊎ ((i.status ≡ "released") × (i.resolved_at ≢ none) × (i.resolved_by ≢ none))

-- The feedback that the column admits.
abbrev pub IsFeedback : Option String → Type 0
IsFeedback r = (r ≡ none) ⊎ ((r ≡ some "spam") ⊎ (r ≡ some "ham"))

abbrev pub ItemOk : QuarantineItem → Type 0
ItemOk i = IsResolved i × IsFeedback i.reported_as

-- The key of UNIQUE (tenant_id, message_ref).
abbrev message_same : Uuid × String → Uuid × String → Bool
message_same (t, m) (u, n) = t == u && m == n

pub message_same_sound : (x y : Uuid × String) → message_same x y ≡ true → x ≡ y
message_same_sound (t, m) (u, n) h =
    let tenants : t ≡ u = (nat_beq_iff t u).0 (ground arith) in
    let messages : m ≡ n = (str_iff m n).0 (ground arith) in rw (tenants, messages) refl

pub message_same_refl : (x : Uuid × String) → message_same x x ≡ true
message_same_refl (t, m) = ground (arith, (nat_beq_iff t t).1 refl, (str_iff m m).1 refl)

instance abbrev pub message_eq : Eq (Uuid × String)
message_eq = record {
  same = message_same;
  same-sound = message_same_sound;
  same-complete = λ x y e. subst (λ z. message_same x z ≡ true) e (message_same_refl x);
}

abbrev pub message_key : QuarantineItem → Uuid × String
message_key i = (i.tenant_id, i.message_ref)

pub record QuarantineOk (q : Quarantine) : Type 0 where
  pub decisions_ok : All DecisionOk q.abuse_decision
  pub items_ok : All ItemOk q.quarantine_item
  pub backed : All (IsBacked q.abuse_decision) q.quarantine_item
  pub one_each : Distinct message_key q.quarantine_item

pub QuarantineOk-Decided :
    {t : Uuid} {req : RecordDecision} {symbols : Value} {se : Session} {s : Quarantine}
    {d : AbuseDecision} {s' : Quarantine}
    → Decided t req symbols se s d s'
    → QuarantineOk s
    → QuarantineOk s'
QuarantineOk-Decided {s} {d} n h = rw n.tables_eq (record {
  decisions_ok =
      All-concat DecisionOk s.abuse_decision d h.decisions_ok
        (rw (n.direction_eq, n.action_eq, n.verdict_eq) n.checked);
  items_ok = h.items_ok;
  backed =
      All-weaken _ _ s.quarantine_item
        (λ i b. any-append (is_decision_of i) s.abuse_decision (d ∷ []) ∙ (rw b refl)) h.backed;
  one_each = h.one_each;
})

pub QuarantineOk-Held :
    (t decision_id : Uuid) (req : RecordDecision) (se : Session) (s s' : Quarantine)
    → any (λ (d : AbuseDecision). d.id == decision_id && d.tenant_id == t) s.abuse_decision ≡ true
    → Held t decision_id req se s s'
    → QuarantineOk s
    → QuarantineOk s'
QuarantineOk-Held t decision_id req se s s' there (inl (_, same)) h = rw same h
QuarantineOk-Held t decision_id req se s s' there (inr (id, new, grown)) h =
    let i = held_item t decision_id req id se.started in
    rw grown (record {
      decisions_ok = h.decisions_ok;
      items_ok =
          All-concat ItemOk s.quarantine_item i h.items_ok (inl (refl, refl, refl), inl refl);
      backed = All-concat (IsBacked s.abuse_decision) s.quarantine_item i h.backed there;
      one_each = Distinct-concat message_key s.quarantine_item i new h.one_each;
    })

-- Some rows change, and keep what they are about.
QuarantineOk-update :
    (p : QuarantineItem → Bool) (f : QuarantineItem → QuarantineItem) (s : Quarantine)
    → ((i : QuarantineItem) → p i ≡ true → ItemOk i → ItemOk (f i))
    → ((i : QuarantineItem) → message_key (f i) ≡ message_key i)
    → ((i : QuarantineItem) → IsBacked s.abuse_decision i → IsBacked s.abuse_decision (f i))
    → QuarantineOk s
    → QuarantineOk (record s { quarantine_item = update p f s.quarantine_item })
QuarantineOk-update p f s keep key_eq backed_eq h = record {
  decisions_ok = h.decisions_ok;
  items_ok =
      All-update_at ItemOk ItemOk p f s.quarantine_item (λ i on ok _. keep i on ok) h.items_ok
        h.items_ok;
  backed = All-update (IsBacked s.abuse_decision) p f s.quarantine_item backed_eq h.backed;
  one_each = Distinct-update message_key p f s.quarantine_item (λ i _. key_eq i) h.one_each;
}

pub QuarantineOk-released :
    {p : QuarantineItem → Bool} {who : String} {now : Time} {s : Quarantine} {i : QuarantineItem}
    {s' : Quarantine}
    → Updated p (released who now) s i s'
    → QuarantineOk s
    → QuarantineOk s'
QuarantineOk-released {p} {who} {now} {s} u h = rw u.tables_eq (
    QuarantineOk-update p (released who now) s (λ i _ ok. (inr (refl, cc, cc), ok.1)) (λ i. refl)
      (λ i b. b) h)

pub QuarantineOk-reported :
    {p : QuarantineItem → Bool} {verdict : String} {s : Quarantine} {i : QuarantineItem}
    {s' : Quarantine}
    → (verdict ≡ "spam") ⊎ (verdict ≡ "ham")
    → Updated p (reported verdict) s i s'
    → QuarantineOk s
    → QuarantineOk s'
QuarantineOk-reported {p} {verdict} {s} valid u h = rw u.tables_eq (
    QuarantineOk-update p (reported verdict) s (λ i _ ok. (ok.0, inr (feedback valid))) (λ i. refl)
      (λ i b. b) h)
  where
    feedback :
        (verdict ≡ "spam") ⊎ (verdict ≡ "ham")
        → (some verdict ≡ some "spam") ⊎ (some verdict ≡ some "ham")
    feedback (inl spam) = inl (ap some spam)
    feedback (inr ham) = inr (ap some ham)

pub QuarantineOk-audit :
    (s : Quarantine) (log : List AuditRow)
    → QuarantineOk s
    → QuarantineOk (record s { audit_log = log })
QuarantineOk-audit s log h = record {
  decisions_ok = h.decisions_ok;
  items_ok = h.items_ok;
  backed = h.backed;
  one_each = h.one_each;
}
