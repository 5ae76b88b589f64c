-- ===== src/Attribution/Types.antt =====
-- The inputs of `evaluate` in packages/attribution-core/src/evaluator.ts: a record that a producer
-- sent, the context that the server gave it, and the two together as a candidate attempt. The
-- source types them `any`; the fields are those that its functions read, `undefined` is `none`, and
-- what a payload or a record holds beside them is kept as one text, for the digests.
use open_mmp.Common.{ℕ, Bool, List, Option, String}
use open_mmp.Fraud.Value.{Number}
use open_mmp.Fraud.Bundle.{RegisteredBundle}
use open_mmp.Money.{Amount}

pub record ProcessingPurpose : Type 0 where
  pub processing_purpose_id : String
  pub consent_required : Bool
  pub policy_version : String

pub record Withdrawal : Type 0 where
  pub processing_purpose_id : String
  pub withdrawal_recognized_at : String
  pub withdrawal_recognized_sequence : ℕ

pub record LegalBasis : Type 0 where
  pub alternative_legal_basis_id : String
  pub processing_purpose_id : String
  pub effective_at : String
  pub policy_version : String

pub record StalePolicy : Type 0 where
  pub before : String
  pub authority : String
  pub policy_version : String
  pub policy_digest : String

pub record ClickInjectionPolicy : Type 0 where
  pub threshold_seconds : Number
  pub authority : String
  pub policy_version : String
  pub policy_digest : String

pub data LinkStatus : Type 0 where
  active inactive unknown : LinkStatus

pub record DeepLinkResolution : Type 0 where
  pub status : LinkStatus
  pub install_attribution_click_id : Option String
  pub campaign_id : Option String

pub record Server : Type 0 where
  pub tenant_id : String
  pub app_id : String
  pub received_at : String
  pub processing_purposes : List ProcessingPurpose
  pub withdrawals : List Withdrawal
  pub alternative_legal_bases : List LegalBasis
  pub timestamp_stale_policy : Option StalePolicy
  pub click_injection_policy : Option ClickInjectionPolicy
  pub deep_link_resolution : Option DeepLinkResolution
  pub fraud_enabled : Bool  -- fraud_enabled !== false
  pub fraud_actions_enabled : Bool
  pub fraud_rule_bundle : Option RegisteredBundle
  pub policy_digest : String
  pub rest : String

-- The closed vocabularies of the event schemas (schemas/events).
pub data ReferrerStatus : Type 0 where
  available third_party none unsupported unavailable not_applicable : ReferrerStatus

pub data TimeStatus : Type 0 where
  available missing invalid : TimeStatus

pub data InstallType : Type 0 where
  first_install reinstall redownload : InstallType

pub data MetaStatus : Type 0 where
  provider_unavailable app_version_unsupported no_campaign_data : MetaStatus
  decrypt_failed auth_failed decrypted : MetaStatus

pub data Model : Type 0 where
  none last_click view_through provider_reported aggregate : Model

pub data AdServicesStatus : Type 0 where
  attributed token_expired not_attributed lookup_unavailable : AdServicesStatus

pub data ProviderStrategy : Type 0 where
  click_through view_through modeled self_attributed_network organic unattributed : ProviderStrategy

pub record ImportContext : Type 0 where
  pub provider : String
  pub provider_attributed : Bool
  pub provider_attribution_strategy : ProviderStrategy
  pub provider_confirmed_at : Option String
  pub provider_click_ref : Option String
  pub provider_install_ref : Option String
  pub provider_campaign_ref : Option String
  pub provider_network : Option String
  pub provider_country : Option String

pub record Payload : Type 0 where
  pub installation_id : Option String
  pub prior_installation_id : Option String
  pub install_type : Option InstallType
  pub click_id : Option String
  pub referrer_status : Option ReferrerStatus
  pub play_organic_marker : Bool  -- third_party_referrer_classification === "play_organic_marker"
  pub install_begin_at_server : Option String
  pub install_begin_at_server_status : Option TimeStatus
  pub meta_referrer_status : Option MetaStatus
  pub meta_attribution_model : Option Model  -- meta_referrer_context?.attribution_model
  pub adservices_status : Option AdServicesStatus  -- adservices_context?.status
  pub import_context : Option ImportContext
  pub redirector_click_at : Option String
  pub redirector_time_status : Option TimeStatus
  pub bot_prefetch : Bool
  pub replay_suspected : Bool
  pub referrer_click_at_server : Option String
  pub referrer_click_at_server_status : Option TimeStatus
  pub remote_click_ref : Option String
  pub android_deferred_referrer : Bool  -- open_source === "android_deferred_referrer"
  pub signature_verified : Bool
  pub did_win : Bool
  pub source_identifier : Option String
  pub conversion_value : Option ℕ
  pub coarse_conversion_value : Option String
  pub anchor_source : Option String
  pub correction_target_record_id : Option String
  pub campaign_id : Option String
  pub network : Option String
  pub ad_network : Option String
  pub country : Option String
  pub installation_level : Bool  -- subject_scope === "installation_level"
  pub amount : Amount  -- of a revenue event; no other event's is read
  pub rest : String

pub record Record : Type 0 where
  pub record_id : String
  pub delivery_id : String
  pub tenant_id : String
  pub app_id : String
  pub producer : String
  pub event_id : String
  pub event_name : String
  pub schema_version : String
  pub occurred_at : String
  pub received_at : String
  pub processing_purpose_id : Option String
  pub alternative_legal_basis_id : Option String
  pub processing_sequence : ℕ
  pub aggregate_scope : Bool  -- subject_scope === "aggregate"
  pub late : Bool
  pub payload : Payload
  pub rest : String

pub record CandidateAttempt : Type 0 where
  pub server : Server
  pub event : Record  -- `record` in the source
  pub batch_id : String

-- SHA-256 over the canonical JSON of a value (`sha256`, `clickInjectionPolicyDigest`): the packages
-- node:crypto and json-canonicalize, which are not part of the repository.
pub record Digests : Type 0 where
  pub record_digest : Record → String
  pub payload_digest : Payload → String
  pub stale_policy_digest : (before authority policy_version : String) → String
  pub click_policy_digest : Number → (authority policy_version : String) → String
