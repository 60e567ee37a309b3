-- ===== src/Wrappers/RspamdAbuse.antt =====
-- `RspamdAbuseProvider` of crates/wrappers/src/rspamd_abuse.rs.
use opengroupware.Prelude.{ℕ, String, Bool, false, float_ℕ, Option, none, some, List, []}
use opengroupware.Db.World.{Uuid}
use opengroupware.Types.Model.{QuarantineItem, Page}
use opengroupware.Types.Provider.{ProviderContext, Call}
use opengroupware.Types.Abuse.{
  ScoringResult, ThreatIndicatorType, ThreatIntelObservation, AbuseProvider, pass, accept,
}
use opengroupware.Wrappers.Stubs.{Fresh, answer, fresh, answer_fresh}

pub record RspamdConfig : Type 0 where
  pub host : String
  pub port : ℕ
  pub password : String
  pub bayes_path : String

pub record RspamdAbuseProvider : Type 0 where
  pub config : RspamdConfig

abbrev pub score_message : RspamdAbuseProvider → ProviderContext → List ℕ → Call Fresh ScoringResult
score_message p ctx raw_message = answer_fresh λ id. record {
  message_id = id;
  tenant_id = ctx.tenant_id;
  spam_score = float_ℕ 0;
  spam_threshold = float_ℕ 5;
  is_spam = false;
  virus = false;
  phishing_score = float_ℕ 0;
  dmarc_result = some pass;
  action = accept;
}

abbrev pub check_threat_intel :
    RspamdAbuseProvider
    → ProviderContext
    → ThreatIndicatorType
    → String
    → Call Fresh (Option ThreatIntelObservation)
check_threat_intel p ctx indicator_type indicator_value = answer none

abbrev pub train_bayes : RspamdAbuseProvider → ProviderContext → Uuid → Bool → Call Fresh Unit
train_bayes p ctx message_id is_spam = answer tt

abbrev pub quarantine_message :
    RspamdAbuseProvider → ProviderContext → Uuid → String → ScoringResult → Call Fresh Uuid
quarantine_message p ctx message_id reason scoring_result = fresh

abbrev pub release_quarantine :
    RspamdAbuseProvider → ProviderContext → Uuid → Uuid → Call Fresh Unit
release_quarantine p ctx quarantine_id account_id = answer tt

abbrev pub delete_quarantine : RspamdAbuseProvider → ProviderContext → Uuid → Call Fresh Unit
delete_quarantine p ctx quarantine_id = answer tt

abbrev pub list_quarantine :
    RspamdAbuseProvider
    → ProviderContext
    → Uuid
    → Option String
    → ℕ
    → Call Fresh (Page QuarantineItem)
list_quarantine p ctx account_id cursor limit =
    answer (record { items = []; next_cursor = none; has_more = false })

-- The provider.
abbrev pub rspamd_abuse : RspamdAbuseProvider → AbuseProvider Fresh
rspamd_abuse p = record {
  score_message = score_message p;
  check_threat_intel = check_threat_intel p;
  train_bayes = train_bayes p;
  quarantine_message = quarantine_message p;
  release_quarantine = release_quarantine p;
  delete_quarantine = delete_quarantine p;
  list_quarantine = list_quarantine p;
}
