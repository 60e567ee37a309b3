-- ===== src/Types/Abuse.antt =====
-- The interface of crates/types/src/providers/abuse.rs and its data.
use opengroupware.Prelude.{ℕ, String, Bool, Float64, Option, List}
use opengroupware.Db.World.{Uuid, Time}
use opengroupware.Types.Model.{QuarantineItem, Page}
use opengroupware.Types.Provider.{ProviderContext, Call}

-- `None` is `no_policy`.
pub data DmarcResult : Type 0 where
  pass fail softfail no_policy : DmarcResult

pub data ScoringAction : Type 0 where
  accept greylist quarantine reject : ScoringAction

pub record ScoringResult : Type 0 where
  pub message_id : Uuid
  pub tenant_id : Uuid
  pub spam_score : Float64
  pub spam_threshold : Float64
  pub is_spam : Bool
  pub virus : Bool
  pub phishing_score : Float64
  pub dmarc_result : Option DmarcResult
  pub action : ScoringAction

pub data ThreatIndicatorType : Type 0 where
  ip_address domain url file_hash email_address : ThreatIndicatorType

pub data ThreatSeverity : Type 0 where
  low medium high critical : ThreatSeverity

pub record ThreatIntelObservation : Type 0 where
  pub id : Uuid
  pub tenant_id : Uuid
  pub indicator_type : ThreatIndicatorType
  pub indicator_value : String
  pub severity : ThreatSeverity
  pub source : String
  pub observed_at : Time

-- `trait AbuseProvider`: an operation takes and leaves the state of its backend.
pub record AbuseProvider (S : Type 0) : Type 0 where
  pub score_message : ProviderContext → List ℕ → Call S ScoringResult
  pub check_threat_intel :
      ProviderContext → ThreatIndicatorType → String → Call S (Option ThreatIntelObservation)
  pub train_bayes : ProviderContext → Uuid → Bool → Call S Unit
  pub quarantine_message : ProviderContext → Uuid → String → ScoringResult → Call S Uuid
  pub release_quarantine : ProviderContext → Uuid → Uuid → Call S Unit
  pub delete_quarantine : ProviderContext → Uuid → Call S Unit
  pub list_quarantine : ProviderContext → Uuid → Option String → ℕ → Call S (Page QuarantineItem)
