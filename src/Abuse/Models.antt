-- ===== src/Abuse/Models.antt =====
-- crates/abuse-api/src/models.rs
use opengroupware.Prelude.{
  String, Bool, Float64, Option, none, some, List, [], ◌∷◌, any, ◌==◌, string_eq,
}
use opengroupware.Db.World.{Uuid, Time}
use opengroupware.Db.Audit.{Value}

pub record AbuseDecision : Type 0 where
  pub id : Uuid
  pub tenant_id : Uuid
  pub message_ref : String
  pub direction : String
  pub recipient : String
  pub sender : String
  pub score : Float64  -- f32
  pub action : String
  pub verdict : String
  pub symbols : Value
  pub scanned_at : Time

pub record QuarantineItem : Type 0 where
  pub id : Uuid
  pub tenant_id : Uuid
  pub decision_id : Uuid
  pub message_ref : String
  pub recipient : String
  pub sender : String
  pub subject : String
  pub reason : String
  pub status : String
  pub reported_as : Option String
  pub held_at : Time
  pub resolved_at : Option Time
  pub resolved_by : Option String

pub record RecordDecision : Type 0 where
  pub message_ref : String
  pub direction : String
  pub recipient : String
  pub sender : String
  pub score : Float64  -- f32
  pub action : String
  pub verdict : String
  pub symbols : Value
  pub subject : String

-- What a missing `direction` or `verdict` is filled in by.
abbrev pub direction_or_default : Option String → String
direction_or_default none = "inbound"
direction_or_default (some direction) = direction

abbrev pub verdict_or_default : Option String → String
verdict_or_default none = "ham"
verdict_or_default (some verdict) = verdict

pub record ReportFeedback : Type 0 where
  pub verdict : String

abbrev pub valid_actions : List String
valid_actions = "accept" ∷ "junk" ∷ "quarantine" ∷ "reject" ∷ "discard" ∷ []

abbrev pub valid_verdicts : List String
valid_verdicts = "ham" ∷ "spam" ∷ "phishing" ∷ "malware" ∷ []

-- `slice.contains(&s)`
unfoldable pub contains : List String → String → Bool
contains l s = any (λ x. x == s) l
