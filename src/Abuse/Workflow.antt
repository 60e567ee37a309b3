-- ===== src/Abuse/Workflow.antt =====
-- The life of a quarantine item as a step relation, and that all requests follow it.
use opengroupware.Prelude.{
  String, ◌≡◌, refl, ap, Bool, true, false, List, [], ◌∷◌, ◌++◌, ok, ◌==◌, string_eq, str_iff,
  arith, update, ◌⊎◌, inl, inr, All, Bool-cases,
}
use opengroupware.Db.Errors.{db}
use opengroupware.Db.World.{Uuid, Time, World}
use opengroupware.Db.Session.{Session}
use opengroupware.Db.Connect.{Db}
use opengroupware.Db.Transaction.{tenant, session}
use opengroupware.Db.Commits.{Commits-keeps, statement-Commits}
use opengroupware.Auth.Caller.{Caller}
use opengroupware.Abuse.Models.{AbuseDecision, QuarantineItem, RecordDecision, ReportFeedback}
use opengroupware.Abuse.Tables.{Quarantine, held_item, is_held, released, reported, select_held}
use opengroupware.Abuse.Statements.{Held}
use opengroupware.Abuse.Routes.{list_quarantine, validate_feedback}
use opengroupware.Abuse.Api.{
  AbuseRequest, post_decisions, get_quarantine, post_release, post_report, abuse_router,
  abuse_serve,
}
use opengroupware.Abuse.Effects.{
  Recorded, record_decision-Commits, Release, release_item-Commits, Report, report_item-Commits,
}

-- One transition: a held item is released; an item, held or released, gets the feedback that its
-- message was spam or ham.
pub data Transition : QuarantineItem → QuarantineItem → Type 0 where
  to_released :
      (i : QuarantineItem) (actor : String) (now : Time)
      → i.status ≡ "held"
      → Transition i (released actor now i)
  to_reported :
      (i : QuarantineItem) (verdict : String)
      → (verdict ≡ "spam") ⊎ (verdict ≡ "ham")
      → Transition i (reported verdict i)

pub data Reaches : QuarantineItem → QuarantineItem → Type 0 where
  here : (i : QuarantineItem) → Reaches i i
  there : (i j k : QuarantineItem) → Reaches i j → Transition j k → Reaches i k

pub Reaches-trans : (i j k : QuarantineItem) → Reaches i j → Reaches j k → Reaches i k
Reaches-trans i j k r (here _) = r
Reaches-trans i j k r (there _ j' _ q t) = there i j' k (Reaches-trans i j j' r q) t

-- An item of now that began as a held one.
abbrev pub BeganHeld : QuarantineItem → Type 0
BeganHeld k = (i : QuarantineItem) × (i.status ≡ "held") × Reaches i k

-- The table of later: each row has come from the row in its place, and each further row began held.
abbrev pub Evolves : List QuarantineItem → List QuarantineItem → Type 0
Evolves [] later = All BeganHeld later
Evolves (i ∷ is) [] = ⊥
Evolves (i ∷ is) (k ∷ ks) = Reaches i k × Evolves is ks

Evolves-refl : (is : List QuarantineItem) → Evolves is is
Evolves-refl [] = tt
Evolves-refl (i ∷ is) = (here i, Evolves-refl is)

BeganHeld-later :
    (js ks : List QuarantineItem) → All BeganHeld js → Evolves js ks → All BeganHeld ks
BeganHeld-later [] ks _ e = e
BeganHeld-later (j ∷ js) [] h e = absurd e
BeganHeld-later (j ∷ js) (k ∷ ks) ((i, held, r), h) (q, e) =
    ((i, held, Reaches-trans i j k r q), BeganHeld-later js ks h e)

Evolves-trans : (is js ks : List QuarantineItem) → Evolves is js → Evolves js ks → Evolves is ks
Evolves-trans [] js ks h e = BeganHeld-later js ks h e
Evolves-trans (i ∷ is) [] ks h e = absurd h
Evolves-trans (i ∷ is) (j ∷ js) [] h e = absurd e
Evolves-trans (i ∷ is) (j ∷ js) (k ∷ ks) (r, h) (q, e) =
    (Reaches-trans i j k r q, Evolves-trans is js ks h e)

Evolves-concat :
    (is : List QuarantineItem) (k : QuarantineItem) → k.status ≡ "held" → Evolves is (is ++ k ∷ [])
Evolves-concat [] k held = ((k, held, here k), tt)
Evolves-concat (i ∷ is) k held = (here i, Evolves-concat is k held)

Evolves-update :
    (p : QuarantineItem → Bool) (f : QuarantineItem → QuarantineItem) (is : List QuarantineItem)
    → ((i : QuarantineItem) → p i ≡ true → Transition i (f i))
    → Evolves is (update p f is)
unfolding update
Evolves-update p f [] step = tt
Evolves-update p f (i ∷ is) step = elim (Bool-cases (p i)) [
  | inl on ↦ (rw on (there i i (f i) (here i) (step i on)), Evolves-update p f is step)
  | inr off ↦ (rw off (here i), Evolves-update p f is step)
]

held_status :
    (se : Session) (item_id : Uuid) (i : QuarantineItem)
    → is_held se item_id i ≡ true
    → i.status ≡ "held"
held_status se item_id i on = (str_iff _ _).0 (ground arith)

pub verdict_known :
    (req : ReportFeedback)
    → validate_feedback req ≡ ok tt
    → (req.verdict ≡ "spam") ⊎ (req.verdict ≡ "ham")
unfolding validate_feedback
verdict_known req h = elim (Bool-cases (req.verdict == "spam")) [
  | inl spam ↦ inl ((str_iff _ _).0 spam)
  | inr other ↦ inr ((str_iff _ _).0 (ground arith))
]

module _ (d : Db) (caller : Caller) where
  Recorded-Evolves :
      (t : Uuid) (req : RecordDecision) (s : Quarantine) (a : AbuseDecision) (s' : Quarantine)
      → Recorded d t caller req s a s'
      → Evolves s.quarantine_item s'.quarantine_item
  Recorded-Evolves t req s a s' r =
      rw (r.tables_eq, ← ap (λ (x : Quarantine). x.quarantine_item) r.decided.tables_eq) (go r.held)
    where
      go :
          (((req.action ≡ "quarantine")
              × Held t a.id req (session d (tenant t) r.now) r.between r.after)
            ⊎ (((req.action == "quarantine") ≡ false) × (r.after ≡ r.between)))
          → Evolves r.between.quarantine_item r.after.quarantine_item
      go (inl (_, inl (_, same))) = rw same (Evolves-refl r.between.quarantine_item)
      go (inl (_, inr (id, _, same))) =
          rw same (Evolves-concat r.between.quarantine_item (held_item t a.id req id r.now) refl)
      go (inr (_, same)) = rw same (Evolves-refl r.between.quarantine_item)

  pub abuse_router-Evolves :
      (req : AbuseRequest) (w : World Quarantine)
      → Evolves w.tables.quarantine_item (abuse_router d caller req w).tables.quarantine_item
  unfolding abuse_router list_quarantine select_held
  abuse_router-Evolves (post_decisions t req) w =
      Commits-keeps (Recorded d t caller req w.tables)
        (λ s'. Evolves w.tables.quarantine_item s'.quarantine_item) w.tables _
        (Recorded-Evolves t req w.tables) (Evolves-refl _)
        (record_decision-Commits d t caller req w)
  abuse_router-Evolves (get_quarantine t) w =
      Commits-keeps (λ _ s'. s' ≡ w.tables)
        (λ s'. Evolves w.tables.quarantine_item s'.quarantine_item) w.tables _
        (λ _ s' same. rw same (Evolves-refl w.tables.quarantine_item)) (Evolves-refl _)
        (statement-Commits (λ _ s'. s' ≡ w.tables) db d (tenant t) select_held w
          λ now id a s ran. ground arith)
  abuse_router-Evolves (post_release t item_id) w =
      Commits-keeps (Release d t caller item_id w.tables)
        (λ s'. Evolves w.tables.quarantine_item s'.quarantine_item) w.tables _
        (λ i s' q.
          rw (q.tables_eq, q.row.tables_eq)
            (Evolves-update _ _ w.tables.quarantine_item λ j on.
              to_released j _ q.now (held_status (session d (tenant t) q.now) item_id j on)))
        (Evolves-refl _) (release_item-Commits d t caller item_id w)
  abuse_router-Evolves (post_report t item_id req) w =
      Commits-keeps (Report d t caller item_id req w.tables)
        (λ s'. Evolves w.tables.quarantine_item s'.quarantine_item) w.tables _
        (λ i s' q.
          rw (q.tables_eq, q.row.tables_eq)
            (Evolves-update _ _ w.tables.quarantine_item
              λ j on. to_reported j req.verdict (verdict_known req q.valid)))
        (Evolves-refl _) (report_item-Commits d t caller item_id req w)

-- After any sequence of requests each item of before is in its place and has only been released
-- while held, or been reported as spam or ham; each further item began held.
pub abuse_serve-Evolves :
    (d : Db) (requests : List (Caller × AbuseRequest)) (w : World Quarantine)
    → Evolves w.tables.quarantine_item (abuse_serve d requests w).tables.quarantine_item
unfolding abuse_serve
abuse_serve-Evolves d [] w = Evolves-refl _
abuse_serve-Evolves d ((caller, req) ∷ rest) w =
    Evolves-trans w.tables.quarantine_item _ _ (abuse_router-Evolves d caller req w)
      (abuse_serve-Evolves d rest (abuse_router d caller req w))
