-- ===== src/Attribution/Tests/Frauds.antt =====
-- A click with the signal of a prefetch that excludes itself, and the install attributed to it.
use mathlib.Core.List.{Memᴰ}
use open_mmp.Common.{◌≡◌, refl, true, List, [], ◌∷◌, map, none, some, Outcome, ok, throw}
use open_mmp.Instant.{to_instant}
use open_mmp.Common.Sorting.{insert_sorted, sort}
use open_mmp.Attribution.Types.{CandidateAttempt, Model}
use open_mmp.Attribution.Errors.{time}
use open_mmp.Attribution.Results.{
  AttributionResult, SubjectScope, Status, Method, AttributionReason, Finality,
}
use open_mmp.Attribution.Order.{units, compare_text, compare_keys, sort_by_key}
use open_mmp.Fraud.Assert.{assert_rules, assert_fraud_bundle, fraud_bundle_hash}
use open_mmp.Fraud.Install.{evaluate_install_rules}
use open_mmp.Attribution.FraudDecisions.{
  FraudError, FraudDigests, FraudDecision, quarantine_deadline, bound_fraud_bundle, flat_map_each,
  transport_fraud,
}
use open_mmp.Attribution.FraudDecisions.Installs.{install_fraud}
use open_mmp.Attribution.FraudDecisions.Exclusion.{
  fraud_decisions, excluded_clicks, FraudAttribution, fraud_attributions,
}
use open_mmp.Attribution.FraudDecisions.Laws.{IsTakenAway, fraud_attributions_sound}
use open_mmp.Attribution.Tests.Samples.{digests, click, install, server}

deciding : Unit {0}
unfolding to_instant time units compare_text compare_keys sort_by_key insert_sorted sort
    assert_rules assert_fraud_bundle fraud_bundle_hash evaluate_install_rules quarantine_deadline
    bound_fraud_bundle flat_map_each transport_fraud install_fraud fraud_decisions excluded_clicks
    fraud_attributions
deciding = tt

abbrev fraud_digests : FraudDigests
fraud_digests = record {
  of_definition = λ b. b.id;
  of_hashed = λ b. b.id;
  of_evidence = λ texts. "evidence";
}

abbrev prefetch : CandidateAttempt
prefetch = record click {
  server = record server { fraud_actions_enabled = true };
  event = record click.event { payload = record click.event.payload { bot_prefetch = true } };
}

abbrev accepted : List CandidateAttempt
accepted = prefetch ∷ install ∷ []

abbrev decisions_or : Outcome FraudError (List FraudDecision) → List FraudDecision
decisions_or (ok ds) = ds
decisions_or (throw e) = []

abbrev decisions : List FraudDecision
decisions = decisions_or (fraud_decisions digests fraud_digests (λ d. d.fraud_decision_id) accepted)

abbrev attributed : AttributionResult
attributed = record {
  attribution_id = "a1";
  tenant_id = "acme";
  app_id = "game";
  subject_scope = SubjectScope.installation_level;
  subject_ref = some "i1";
  status = Status.non_organic;
  method = Method.install_referrer;
  model = Model.last_click;
  reason_code = AttributionReason.valid_install_referrer;
  evidence_refs = [];
  effective_at = "2026-08-20T12:00:00.000Z";
  decided_at = "2026-08-20T12:00:05.000Z";
  finality = Finality.final;
  supersedes_attribution_id = none;
}

abbrev taken : List FraudAttribution
taken = fraud_attributions (excluded_clicks accepted decisions []) (attributed ∷ []) accepted

-- An install of another app, with the click id of the excluded click.
abbrev foreign : CandidateAttempt
foreign = record install { server = record server { app_id = "other" } }

fraud_tests :
    (map (λ d. d.fraud_decision_id) decisions ≡ "fraud:r1" ∷ [])
    × (map (λ x. x.attribution_id) taken ≡ "a1:fraud" ∷ [])
    × (map (λ x. x.fraud_decision_ref) taken ≡ "fraud:r1" ∷ [])
    × (map
          (λ x. x.attribution_id)
          (fraud_attributions
            (excluded_clicks accepted decisions [])
            (attributed ∷ [])
            (foreign ∷ []))
        ≡ "a1:fraud" ∷ [])
unfolding deciding
fraud_tests = (refl, refl, refl, refl)

abbrev first_taken : List FraudAttribution → FraudAttribution
first_taken (x ∷ xs) = x
first_taken [] = record {
  prior = attributed;
  attribution_id = "";
  fraud_decision_ref = "";
  supersedes_attribution_id = "";
}

taken_first : Memᴰ (first_taken taken) taken
unfolding deciding
taken_first = Memᴰ.head refl

fraud_attributions_sound_example :
    IsTakenAway accepted decisions (attributed ∷ []) (first_taken taken)
fraud_attributions_sound_example =
    fraud_attributions_sound accepted decisions (attributed ∷ []) (first_taken taken) taken_first
