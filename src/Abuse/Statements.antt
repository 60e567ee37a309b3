-- ===== src/Abuse/Statements.antt =====
-- What a statement of Abuse/Tables has done when it succeeds.
use opengroupware.Prelude.{
  String, ◌≡◌, refl, Bool, true, false, Option, none, some, [], ◌∷◌, ◌++◌, ok, ◌==◌, nat_eq,
  string_eq, arith, any, find?, update, ◌⊎◌, inl, inr, Bool-cases,
}
use opengroupware.Db.World.{Uuid}
use opengroupware.Db.Session.{Session}
use opengroupware.Db.Audit.{Value}
use opengroupware.Abuse.Models.{AbuseDecision, QuarantineItem, RecordDecision}
use opengroupware.Abuse.Tables.{
  Quarantine, decision_check, insert_decision, same_message, held_item, insert_item, is_held,
  released, release, is_item, reported, report, updated_item,
}

-- A decision as it was sent, put at the end of the table.
pub record Decided (tenant_id : Uuid) (req : RecordDecision) (symbols : Value) (se : Session)
    (s : Quarantine) (d : AbuseDecision) (s' : Quarantine) : Type 0 where
  pub tenant_eq : d.tenant_id ≡ tenant_id
  pub direction_eq : d.direction ≡ req.direction
  pub message_eq : d.message_ref ≡ req.message_ref
  pub fresh : any (λ (r : AbuseDecision). r.id == d.id) s.abuse_decision ≡ false
  pub recipient_eq : d.recipient ≡ req.recipient
  pub sender_eq : d.sender ≡ req.sender
  pub score_eq : d.score ≡ req.score
  pub scanned_eq : d.scanned_at ≡ se.started
  pub action_eq : d.action ≡ req.action
  pub verdict_eq : d.verdict ≡ req.verdict
  pub symbols_eq : d.symbols ≡ symbols
  pub checked : decision_check req.direction req.action req.verdict ≡ true
  pub tables_eq : s' ≡ record s { abuse_decision = s.abuse_decision ++ d ∷ [] }

pub insert_decision-Decided :
    (tenant_id : Uuid) (req : RecordDecision) (symbols : Value) (se : Session) (id : Uuid)
    (s : Quarantine) (d : AbuseDecision) (s' : Quarantine)
    → insert_decision tenant_id req symbols se id s ≡ ok (d, s')
    → Decided tenant_id req symbols se s d s'
unfolding insert_decision
insert_decision-Decided tenant_id req symbols se id s d s' h = ground arith

-- The message is held already, or becomes held.
abbrev pub Held : Uuid → Uuid → RecordDecision → Session → Quarantine → Quarantine → Type 0
Held tenant_id decision_id req se s s' =
    ((any (same_message tenant_id req.message_ref) s.quarantine_item ≡ true) × (s' ≡ s))
    ⊎ ((id : Uuid) × (any (same_message tenant_id req.message_ref) s.quarantine_item ≡ false)
        × (s' ≡ record s {
          quarantine_item =
              s.quarantine_item ++ held_item tenant_id decision_id req id se.started ∷ [];
        }))

pub insert_item-Held :
    (tenant_id decision_id : Uuid) (req : RecordDecision) (se : Session) (id : Uuid)
    (s : Quarantine) (u : Unit) (s' : Quarantine)
    → insert_item tenant_id decision_id req se id s ≡ ok (u, s')
    → Held tenant_id decision_id req se s s'
unfolding insert_item
insert_item-Held tenant_id decision_id req se id s u s' h =
    elim (Bool-cases (any (same_message tenant_id req.message_ref) s.quarantine_item)) [
      | inl old ↦ inl (old, ground arith)
      | inr new ↦ inr (id, new, ground arith)
    ]

-- The row that an update finds, and what it makes of the table.
pub record Updated (p : QuarantineItem → Bool) (f : QuarantineItem → QuarantineItem)
    (s : Quarantine) (i : QuarantineItem) (s' : Quarantine) : Type 0 where
  pub row : QuarantineItem
  pub found : find? p s.quarantine_item ≡ some row
  pub item_eq : i ≡ f row
  pub tables_eq : s' ≡ record s { quarantine_item = update p f s.quarantine_item }

updated_item-Updated :
    (p : QuarantineItem → Bool) (f : QuarantineItem → QuarantineItem) (s : Quarantine)
    (found : Option QuarantineItem) (i : QuarantineItem) (s' : Quarantine)
    → find? p s.quarantine_item ≡ found
    → updated_item f p s found ≡ (some i, s')
    → Updated p f s i s'
updated_item-Updated p f s none i s' e h = absurd (ground arith)
updated_item-Updated p f s (some r) i s' e h = record {
  row = r;
  found = e;
  item_eq = ground arith;
  tables_eq = ground arith;
}

pub release-Updated :
    (item_id : Uuid) (actor : String) (se : Session) (id : Uuid) (s : Quarantine)
    (i : QuarantineItem) (s' : Quarantine)
    → release item_id actor se id s ≡ ok (some i, s')
    → Updated (is_held se item_id) (released actor se.started) s i s'
unfolding release
release-Updated item_id actor se id s i s' h = updated_item-Updated _ _ s _ i s' refl (ground arith)

-- A report succeeds only with a verdict that the column admits.
pub report-Updated :
    (item_id : Uuid) (verdict : String) (se : Session) (id : Uuid) (s : Quarantine)
    (i : QuarantineItem) (s' : Quarantine)
    → report item_id verdict se id s ≡ ok (some i, s')
    → Updated (is_item se item_id) (reported verdict) s i s'
unfolding report
report-Updated item_id verdict se id s i s' h =
    updated_item-Updated _ _ s _ i s' refl (ground arith)
