-- ===== src/Attribution/Results.antt =====
-- What the attribution functions of packages/attribution-core/src/evaluator.ts make, and the maps
-- that they read: the decisions by decision key (`decisionFor`) and the lifecycle of evidence. The
-- constant fields of an attribution (the versions and hash of its bundle, the access class of its
-- evidence) are left out.
use open_mmp.Common.{
  Bool, true, false, ◌&&◌, List, [], ◌∷◌, Option, none, some, String, lookup, or_else, Outcome, ok,
  throw, ◌>>=◌, if◌then◌else◌,
}
use open_mmp.Attribution.Types.{Model, CandidateAttempt, Digests}
use open_mmp.Attribution.Errors.{Error, missing_decision}
use open_mmp.Attribution.Candidates.{CompositeKey, composite_key, key_eq}
use open_mmp.Attribution.Decide.{Decision, IngestionStatus, DuplicateResolution, decision_key}

pub data Lifecycle : Type 0 where
  available redacted purged : Lifecycle

pub record EvidenceRef : Type 0 where
  pub tenant_id : String
  pub app_id : String
  pub ref : String
  pub lifecycle_status : Lifecycle

pub data Status : Type 0 where
  organic non_organic unattributed : Status

pub data Method : Type 0 where
  no_method install_referrer meta_install_referrer apple_adservices imported : Method  -- "none", …
  skadnetwork adattributionkit deep_link : Method

pub data Finality : Type 0 where
  final superseded : Finality

pub data SubjectScope : Type 0 where
  installation_level aggregate engagement_level : SubjectScope

pub data AttributionReason : Type 0 where
  valid_install_referrer unknown_click_id ambiguous_click_id bot_prefetch : AttributionReason
  authoritative_time_invalid authoritative_time_missing window_expired : AttributionReason
  no_referrer no_first_party_referrer foreign_referrer_unresolved : AttributionReason
  install_referrer_unsupported install_referrer_unavailable platform_referrer_not_available :
      AttributionReason
  meta_referrer_decrypted meta_referrer_decrypt_failed : AttributionReason
  adservices_attributed adservices_token_expired adservices_not_attributed : AttributionReason
  adservices_lookup_unavailable : AttributionReason
  provider_attributed provider_modeled_conversion provider_time_authority_unavailable :
      AttributionReason
  provider_organic provider_unattributed : AttributionReason
  skan_postback_verified skan_signature_invalid postback_not_winner : AttributionReason
  crowd_anonymity_suppressed conversion_value_null : AttributionReason
  deep_link_open_attributed deep_link_link_inactive deep_link_unknown_link : AttributionReason
  deep_link_install_click_reused : AttributionReason

pub record AttributionResult : Type 0 where
  pub attribution_id : String
  pub tenant_id : String
  pub app_id : String
  pub subject_scope : SubjectScope
  pub subject_ref : Option String
  pub status : Status
  pub method : Method
  pub model : Model
  pub reason_code : AttributionReason
  pub evidence_refs : List EvidenceRef
  pub effective_at : String
  pub decided_at : String
  pub finality : Finality
  pub supersedes_attribution_id : Option String

abbrev pub Decisions : Type 0
Decisions = List (CompositeKey × Decision)

abbrev pub LifecycleIndex : Type 0
LifecycleIndex = List (CompositeKey × Lifecycle)

abbrev pub evidence_key : String → String → String → CompositeKey
evidence_key tenant_id app_id record_id =
    composite_key (some tenant_id ∷ some app_id ∷ some record_id ∷ [])

abbrev pub attempt_evidence_key : CandidateAttempt → CompositeKey
attempt_evidence_key a = evidence_key a.server.tenant_id a.server.app_id a.event.record_id

-- `evidence`: a reference of the attempt's scope, with what became of it.
abbrev pub evidence : CandidateAttempt → LifecycleIndex → String → EvidenceRef
evidence a lifecycle ref = record {
  tenant_id = a.server.tenant_id;
  app_id = a.server.app_id;
  ref = ref;
  lifecycle_status =
      or_else (lookup ⦃e = key_eq⦄ (evidence_key a.server.tenant_id a.server.app_id ref) lifecycle)
        available;
}

abbrev pub found_or_missing : String → Option Decision → Outcome Error Decision
found_or_missing delivery_id none = throw (missing_decision delivery_id)
found_or_missing delivery_id (some d) = ok d

abbrev pub is_accepted : IngestionStatus → Bool
is_accepted IngestionStatus.accepted = true
is_accepted IngestionStatus.rejected = false

abbrev pub is_unique : DuplicateResolution → Bool
is_unique DuplicateResolution.unique = true
is_unique _ = false

abbrev pub is_accepted_unique : Decision → Bool
is_accepted_unique d = is_accepted d.ingestion_status && is_unique d.duplicate_resolution

module _ (dg : Digests) (decisions : Decisions) where
  abbrev pub decision_for : CandidateAttempt → Outcome Error Decision
  decision_for a =
      found_or_missing a.event.delivery_id (lookup ⦃e = key_eq⦄ (decision_key dg a) decisions)

  -- `filter` by a test and by an accepted and unique decision; the decision is asked for only where
  -- the test passes.
  unfoldable pub filter_counted :
      (CandidateAttempt → Bool) → List CandidateAttempt → Outcome Error (List CandidateAttempt)
  filter_counted p [] = ok []
  filter_counted p (c ∷ cs) =
      let rest = filter_counted p cs in
      if p c
      then (do d ← decision_for c; xs ← rest; ok (if is_accepted_unique d then c ∷ xs else xs))
      else rest
