-- ===== src/Attribution/Tests/Ledgers.antt =====
-- An evaluation of a click and an install, of which a completed privacy request erases the click.
use mathlib.Core.List.{Memᴰ, Permᴰ}
use open_mmp.Common.{
  ◌≡◌, ◌↔◌, ◌⊎◌, refl, true, false, String, List, [], ◌∷◌, map, any, none, some, Outcome, ok, throw,
  All,
}
use open_mmp.Common.Sorting.{IsSorted, Distinguishes, insert_sorted, sort}
use open_mmp.Common.Ordering.{lexicographic}
use open_mmp.Instant.{to_instant}
use open_mmp.Attribution.Types.{CandidateAttempt}
use open_mmp.Attribution.Errors.{time}
use open_mmp.Attribution.Candidates.{fixture_provider}
use open_mmp.Attribution.Consent.{consent_decision, invalid_consent_reason}
use open_mmp.Attribution.Decide.{
  Decision, IngestionStatus, duplicate_resolution, rejection_reason, decide,
}
use open_mmp.Attribution.Results.{redacted, evidence_key, filter_counted}
use open_mmp.Attribution.Lifecycle.{
  AffectedRecord, PrivacyRequest, RetentionExpiration, mark_affected, mark_requests,
  mark_expirations, privacy_index,
}
use open_mmp.Attribution.Install.{
  timed_verdict, single_click_verdict, install_verdict, make_attribution,
}
use open_mmp.Attribution.Anchors.{
  prior_error, anchor_error, check_anchors, assert_installation_anchors,
}
use open_mmp.Attribution.Evaluate.{decide_or_invalid, decide_each, map_of}
use open_mmp.Attribution.Order.{
  units, compare_text, compare_keys, sort_by_key, sort_candidate_attempts,
  compare_candidate_attempts,
}
use open_mmp.Attribution.Order.Laws.{sort_candidate_attempts-eq_of_perm}
use open_mmp.Attribution.Inputs.{
  CorrectionInput, check_each, check_privacy_request, assert_import_provider_contexts,
  assert_revenue_anchor_sources, assert_scoped_references,
}
use open_mmp.Attribution.Inputs.Laws.{
  IsTargeted, IsPresent, HasTarget, assert_scoped_references_iff,
}
use open_mmp.Attribution.Outputs.{
  make_raw_record, make_delivery, redaction, tombstone, of_completed, make_rejection,
}
use open_mmp.Attribution.Outputs.Ledger.{
  Failure, map_each, OutputDigests, Input, Ledger, ledger_of, evaluate,
}
use open_mmp.Attribution.Outputs.Erasure.{raw_is_of, event_is_of, evaluate_erases}
use open_mmp.Attribution.Outputs.Answers.{evaluate_answers}
use open_mmp.Attribution.Tests.Samples.{digests, click, install, attempt, empty}

evaluating : Unit {0}
unfolding decide_each map_of decide_or_invalid decide duplicate_resolution rejection_reason
    consent_decision invalid_consent_reason time to_instant filter_counted
    assert_installation_anchors check_anchors anchor_error prior_error mark_affected mark_requests
    mark_expirations privacy_index make_attribution units compare_text compare_keys sort_by_key
    sort_candidate_attempts sort lexicographic check_each check_privacy_request
    assert_import_provider_contexts assert_revenue_anchor_sources assert_scoped_references
    install_verdict single_click_verdict timed_verdict insert_sorted make_raw_record of_completed
    map_each ledger_of evaluate
evaluating = tt

abbrev output_digests : OutputDigests
output_digests = record {
  of_raw_record = λ r. r.record_id;
  of_delivery = λ d. d.record_id;
  of_logical_event = λ e. e.record_id;
  of_correction = λ c. c.correction_id;
  of_tombstone = λ t. t.record_id;
  of_provenance = λ texts completed_at. "provenance";
  of_rejection = λ r. r.record_id;
  of_attribution = λ r. "attribution";
}

abbrev clicked : AffectedRecord
clicked = record { record_id = "r1"; lifecycle_status = redacted }

abbrev request : PrivacyRequest
request = record {
  privacy_request_id = "p1";
  tenant_id = "acme";
  app_id = "game";
  completed = true;
  requested_on_device = false;
  deletion_subject_ref = none;
  reason_code = "erasure";
  policy_version = "p1";
  completed_at = some "2026-08-21T00:00:00.000Z";
  affected_records = clicked ∷ [];
}

-- An attempt of an app that is not the server's is rejected.
abbrev elsewhere : CandidateAttempt
elsewhere =
    let a = attempt "r3" "open" empty in record a { event = record a.event { app_id = "other" } }

abbrev input : Input
input = record {
  all_attempts = elsewhere ∷ install ∷ click ∷ [];
  privacy_requests = request ∷ [];
  correction_inputs = [];
  retention_expirations = [];
}

abbrev ledger_or : Ledger → Outcome Failure Ledger → Ledger
ledger_or l (ok k) = k
ledger_or l (throw e) = l

abbrev no_ledger : Ledger
no_ledger = record {
  raw_records = [];
  deliveries = [];
  logical_events = [];
  corrections = [];
  privacy_tombstones = [];
  attributions = [];
  rejections = [];
}

abbrev ledger : Ledger
ledger = ledger_or no_ledger (evaluate digests output_digests input fixture_provider)

evaluated : evaluate digests output_digests input fixture_provider ≡ ok ledger
unfolding evaluating
evaluated = refl

evaluate_erases_example :
    (any (raw_is_of (evidence_key "acme" "game" "r1")) ledger.raw_records ≡ false)
    × (any (event_is_of (evidence_key "acme" "game" "r1")) ledger.logical_events ≡ false)
    × Memᴰ (tombstone output_digests.of_provenance request clicked) ledger.privacy_tombstones
    × Memᴰ (redaction request clicked) ledger.corrections
evaluate_erases_example =
    evaluate_erases digests output_digests input fixture_provider ledger request clicked evaluated
      (Memᴰ.head refl) refl (Memᴰ.head refl)

evaluate_answers_example :
    Permᴰ
      (map (λ d. d.delivery_id) ledger.deliveries)
      (map (λ b. b.event.delivery_id) input.all_attempts)
    × ((d : Decision) × Memᴰ (make_delivery elsewhere d) ledger.deliveries
        × ((d.ingestion_status ≡ IngestionStatus.accepted)
            ⊎ Memᴰ (make_rejection d) ledger.rejections))
evaluate_answers_example =
    evaluate_answers digests output_digests input fixture_provider ledger elsewhere evaluated
      (Memᴰ.head refl)

sort_candidate_attempts-eq_of_perm_example :
    IsSorted
      (compare_candidate_attempts digests)
      (sort_candidate_attempts digests (install ∷ click ∷ []))
    × Permᴰ (sort_candidate_attempts digests (install ∷ click ∷ [])) (install ∷ click ∷ [])
    × ((ys : List CandidateAttempt)
        → Permᴰ (install ∷ click ∷ []) ys
        → Distinguishes (compare_candidate_attempts digests) (install ∷ click ∷ [])
        → sort_candidate_attempts digests (install ∷ click ∷ [])
          ≡ sort_candidate_attempts digests ys)
sort_candidate_attempts-eq_of_perm_example =
    sort_candidate_attempts-eq_of_perm digests (install ∷ click ∷ [])

abbrev itself : String → String
itself s = s

abbrev single : String → List String
single s = s ∷ []

assert_scoped_references_iff_example :
    (assert_scoped_references (install ∷ click ∷ []) (request ∷ []) [] [] ≡ ok tt) ↔ (
      All (λ r. All (IsTargeted (install ∷ click ∷ []) r) r.affected_records) (request ∷ [])
      × All
          (λ (c : CorrectionInput).
            IsPresent (install ∷ click ∷ []) c.tenant_id c.app_id c.corrects_record_id)
          []
      × All
          (λ (x : RetentionExpiration).
            IsPresent (install ∷ click ∷ []) x.tenant_id x.app_id x.record_id)
          []
      × All (HasTarget (install ∷ click ∷ [])) (install ∷ click ∷ []))
assert_scoped_references_iff_example =
    assert_scoped_references_iff (install ∷ click ∷ []) (request ∷ []) [] []

ledger_tests :
    (map (λ r. r.record_id) ledger.raw_records ≡ "r2" ∷ [])
    × (map (λ d. d.record_id) ledger.deliveries ≡ "r1" ∷ "r2" ∷ "r3" ∷ [])
    × (map (λ r. r.record_id) ledger.rejections ≡ "r3" ∷ [])
    × (sort_by_key itself ("b" ∷ "a" ∷ []) single ≡ "a" ∷ "b" ∷ [])
unfolding evaluating
ledger_tests = (refl, refl, refl, refl)
