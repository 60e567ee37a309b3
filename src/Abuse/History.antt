-- ===== src/Abuse/History.antt =====
-- What the quarantine keeps of an item through any sequence of requests.
use opengroupware.Prelude.{
  String, ◌≡◌, ◌∙◌, refl, sym, ap, Bool, some, List, [], ◌∷◌, ◌==◌, string_eq, arith, ◌⊎◌, inl, inr,
}
use opengroupware.Db.World.{Time, World}
use opengroupware.Db.Connect.{Db}
use opengroupware.Auth.Caller.{Caller}
use opengroupware.Abuse.Models.{QuarantineItem}
use opengroupware.Abuse.Tables.{Quarantine, released}
use opengroupware.Abuse.Api.{AbuseRequest, abuse_serve}
use opengroupware.Abuse.Workflow.{
  to_released, to_reported, Reaches, here, there, Evolves, abuse_serve-Evolves,
}

-- What was said when the item was put in quarantine.
abbrev pub SameMail : QuarantineItem → QuarantineItem → Type 0
SameMail i k =
    (k.id ≡ i.id)
    × (k.tenant_id ≡ i.tenant_id)
    × (k.decision_id ≡ i.decision_id)
    × (k.message_ref ≡ i.message_ref)
    × (k.recipient ≡ i.recipient)
    × (k.sender ≡ i.sender)
    × (k.subject ≡ i.subject)
    × (k.reason ≡ i.reason)
    × (k.held_at ≡ i.held_at)

-- The state of its release is the same.
abbrev pub SameRelease : QuarantineItem → QuarantineItem → Type 0
SameRelease i k =
    (k.status ≡ i.status) × (k.resolved_by ≡ i.resolved_by) × (k.resolved_at ≡ i.resolved_at)

-- It was held and has been released, by someone at some time.
abbrev pub NowReleased : QuarantineItem → QuarantineItem → Type 0
NowReleased i k =
    (i.status ≡ "held")
    × (k.status ≡ "released")
    × ((actor : String) × (k.resolved_by ≡ some actor))
    × ((now : Time) × (k.resolved_at ≡ some now))

-- The feedback is the same, or is now that the message was spam or ham.
abbrev pub Feedback : QuarantineItem → QuarantineItem → Type 0
Feedback i k =
    (k.reported_as ≡ i.reported_as) ⊎ (k.reported_as ≡ some "spam") ⊎ (k.reported_as ≡ some "ham")

pub record Keeps (i k : QuarantineItem) : Type 0 where
  pub mail : SameMail i k
  pub release : SameRelease i k ⊎ NowReleased i k
  pub feedback : Feedback i k

is_held_text : String → Bool
is_held_text status = status == "held"

not-both : (status : String) → status ≡ "held" → status ≡ "released" → ⊥
unfolding is_held_text
not-both status h r =
    let same : is_held_text "held" ≡ is_held_text "released" = ap is_held_text (sym h ∙ r) in
    ground arith

reported-Feedback :
    (i : QuarantineItem) (verdict : String)
    → (verdict ≡ "spam") ⊎ (verdict ≡ "ham")
    → (some verdict ≡ i.reported_as) ⊎ (some verdict ≡ some "spam") ⊎ (some verdict ≡ some "ham")
reported-Feedback i verdict (inl spam) = inr (inl (ap some spam))
reported-Feedback i verdict (inr ham) = inr (inr (ap some ham))

was_held :
    (i j : QuarantineItem) (actor : String) (now : Time)
    → j.status ≡ "held"
    → SameRelease i j ⊎ NowReleased i j
    → SameRelease i (released actor now j) ⊎ NowReleased i (released actor now j)
was_held i j actor now held (inl (same, _, _)) =
    inr (sym same ∙ held, refl, (actor, refl), (now, refl))
was_held i j actor now held (inr (_, gone, _, _)) = absurd (not-both j.status held gone)

Reaches-Keeps : (i k : QuarantineItem) → Reaches i k → Keeps i k
Reaches-Keeps i k (here _) = record {
  mail = (refl, refl, refl, refl, refl, refl, refl, refl, refl);
  release = inl (refl, refl, refl);
  feedback = inl refl;
}
Reaches-Keeps i k (there _ j _ r (to_released _ actor now held)) =
    let h = Reaches-Keeps i j r in
    record { mail = h.mail; release = was_held i j actor now held h.release; feedback = h.feedback }
Reaches-Keeps i k (there _ j _ r (to_reported _ verdict known)) =
    let h = Reaches-Keeps i j r in
    record { mail = h.mail; release = h.release; feedback = reported-Feedback i verdict known }

-- Each row of before is in its place; rows may follow.
abbrev pub AllKept : List QuarantineItem → List QuarantineItem → Type 0
AllKept [] later = Unit
AllKept (i ∷ is) [] = ⊥
AllKept (i ∷ is) (k ∷ ks) = Keeps i k × AllKept is ks

Evolves-AllKept : (is ks : List QuarantineItem) → Evolves is ks → AllKept is ks
Evolves-AllKept [] ks e = tt
Evolves-AllKept (i ∷ is) [] e = absurd e
Evolves-AllKept (i ∷ is) (k ∷ ks) (r, e) = (Reaches-Keeps i k r, Evolves-AllKept is ks e)

-- Through any sequence of requests each item of the quarantine keeps its place and what was said when
-- it was put there. The state of its release, with its time and its actor, is as it was, whatever it
-- was, or the item was held and is now released, by someone at some time. Its feedback is as it was,
-- or is spam or ham.
pub abuse_serve-AllKept :
    (d : Db) (requests : List (Caller × AbuseRequest)) (w : World Quarantine)
    → AllKept w.tables.quarantine_item (abuse_serve d requests w).tables.quarantine_item
abuse_serve-AllKept d requests w =
    Evolves-AllKept w.tables.quarantine_item _ (abuse_serve-Evolves d requests w)
