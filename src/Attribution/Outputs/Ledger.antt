-- ===== src/Attribution/Outputs/Ledger.antt =====
-- The body of `evaluate` in packages/attribution-core/src/evaluator.ts, from the attempts to the
-- ledger and the initial attributions. What was rejected before ingestion is copied to the
-- deliveries and rejections as it is, and is left out.
use open_mmp.Common.{
  Bool, true, false, not, ◌||◌, List, [], ◌∷◌, ◌++◌, map, Option, some, String, str_eq, filter,
  lookup, is_some, Outcome, ok, throw, ◌>>=◌, ◌>>◌,
}
use open_mmp.Attribution.Types.{CandidateAttempt, Digests}
use open_mmp.Attribution.Errors.{Error}
use open_mmp.Attribution.Candidates.{CandidateProvider, key_eq}
use open_mmp.Attribution.Decide.{Decision, IngestionStatus, ReasonCode}
use open_mmp.Attribution.Results.{
  Lifecycle, LifecycleIndex, Decisions, AttributionResult, attempt_evidence_key, decision_for,
}
use open_mmp.Attribution.Lifecycle.{PrivacyRequest, RetentionExpiration, privacy_index}
use open_mmp.Attribution.Install.{make_attribution}
use open_mmp.Attribution.Engagement.{
  make_aggregate_postback_attribution, make_deep_link_attribution,
}
use open_mmp.Attribution.Anchors.{is_install, assert_installation_anchors}
use open_mmp.Attribution.Inputs.{
  InputError, CorrectionInput, assert_import_provider_contexts, assert_revenue_anchor_sources,
  assert_scoped_references,
}
use open_mmp.Attribution.Order.{sort_by_key, sort_candidate_attempts}
use open_mmp.Attribution.Evaluate.{decide_each, map_of, accepted_unique}
use open_mmp.Attribution.Outputs.{
  RawRecord, make_raw_record, Delivery, make_delivery, LogicalEvent, make_logical_event,
  refund_correction, redaction, Tombstone, tombstone, of_completed, Rejection, make_rejection,
}

-- What an evaluation throws: a check of its input, or a function of the evaluator.
pub data Failure : Type 0 where
  input : InputError → Failure
  evaluator : Error → Failure

abbrev pub as_input {ℓ} : {A : Type ℓ} → Outcome InputError A → Outcome Failure A
as_input (ok a) = ok a
as_input (throw e) = throw (input e)

abbrev pub as_evaluator {ℓ} : {A : Type ℓ} → Outcome Error A → Outcome Failure A
as_evaluator (ok a) = ok a
as_evaluator (throw e) = throw (evaluator e)

-- `map` of a function that may throw.
unfoldable pub map_each {ℓ κ} :
    {A : Type ℓ} {B : Type κ} → (A → Outcome Error B) → List A → Outcome Error (List B)
map_each f [] = ok []
map_each f (x ∷ xs) = do y ← f x; ys ← map_each f xs; ok (y ∷ ys)

-- `sha256` of the values that the outputs are sorted by, and of the provenance of a tombstone.
pub record OutputDigests : Type 0 where
  pub of_raw_record : RawRecord → String
  pub of_delivery : Delivery → String
  pub of_logical_event : LogicalEvent → String
  pub of_correction : CorrectionInput → String
  pub of_tombstone : Tombstone → String
  pub of_provenance : List String → Option String → String
  pub of_rejection : Rejection → String
  pub of_attribution : AttributionResult → String

pub record Input : Type 0 where
  pub all_attempts : List CandidateAttempt  -- attempts(input)
  pub privacy_requests : List PrivacyRequest
  pub correction_inputs : List CorrectionInput
  pub retention_expirations : List RetentionExpiration

pub record Ledger : Type 0 where
  pub raw_records : List RawRecord
  pub deliveries : List Delivery
  pub logical_events : List LogicalEvent
  pub corrections : List CorrectionInput
  pub privacy_tombstones : List Tombstone
  pub attributions : List AttributionResult
  pub rejections : List Rejection

abbrev pub is_conflict_reason : Option ReasonCode → Bool
is_conflict_reason (some ReasonCode.event_id_conflict) = true
is_conflict_reason _ = false

abbrev pub is_rejected : IngestionStatus → Bool
is_rejected IngestionStatus.rejected = true
is_rejected IngestionStatus.accepted = false

-- `!lifecycle.has(attemptEvidenceKey(attempt))`.
abbrev pub is_kept : LifecycleIndex → CandidateAttempt → Bool
is_kept lifecycle a = not (is_some (lookup ⦃e = key_eq⦄ (attempt_evidence_key a) lifecycle))

-- An attempt with its decision.
abbrev pub with_decision :
    Digests → Decisions → CandidateAttempt → Outcome Error (CandidateAttempt × Decision)
with_decision dg decisions a = do d ← decision_for dg decisions a; ok (a, d)

abbrev pub is_event : String → CandidateAttempt → Bool
is_event name a = str_eq a.event.event_name name

abbrev pub raw_record_key : RawRecord → List String
raw_record_key r = r.record_id ∷ r.tenant_id ∷ r.app_id ∷ r.delivery_id ∷ []

module _ (dg : Digests) (od : OutputDigests) where
  abbrev pub raw_records_of :
      LifecycleIndex → List CandidateAttempt → Outcome Error (List RawRecord)
  raw_records_of lifecycle evidence = do
    rows ←
        map_each (λ a. make_raw_record dg a Lifecycle.available)
          (filter (is_kept lifecycle) evidence)
    ok (sort_by_key od.of_raw_record rows raw_record_key)

  abbrev pub deliveries_of : List (CandidateAttempt × Decision) → List Delivery
  deliveries_of decided =
      sort_by_key od.of_delivery (map (λ p. make_delivery p.0 p.1) decided)
        (λ d. d.delivery_id ∷ d.record_id ∷ d.tenant_id ∷ d.app_id ∷ [])

  abbrev pub logical_events_of : LifecycleIndex → List CandidateAttempt → List LogicalEvent
  logical_events_of lifecycle accepted =
      sort_by_key od.of_logical_event (map make_logical_event (filter (is_kept lifecycle) accepted))
        (λ e. e.logical_event_id ∷ e.tenant_id ∷ e.app_id ∷ [])

  abbrev pub corrections_of : Input → List CandidateAttempt → List CorrectionInput
  corrections_of i accepted =
      sort_by_key od.of_correction
        (i.correction_inputs
          ++ (map refund_correction (filter (is_event "refund") accepted)
              ++ of_completed redaction i.privacy_requests))
        (λ c. c.correction_id ∷ c.tenant_id ∷ c.app_id ∷ [])

  abbrev pub tombstones_of : Input → List Tombstone
  tombstones_of i =
      sort_by_key od.of_tombstone (of_completed (tombstone od.of_provenance) i.privacy_requests)
        (λ t. t.privacy_request_id ∷ t.record_id ∷ t.tenant_id ∷ t.app_id ∷ [])

  -- `decisionsList` is the decisions in the order of the attempts, each here with its key.
  abbrev pub rejections_of : Decisions → List Rejection
  rejections_of listed =
      sort_by_key od.of_rejection
        (map (λ p. make_rejection p.1) (filter (λ p. is_rejected p.1.ingestion_status) listed))
        (λ r. r.delivery_id ∷ r.record_id ∷ r.tenant_id ∷ r.app_id ∷ [])

  -- `initialAttributions`.
  abbrev pub initial_attributions :
      CandidateProvider
      → Decisions
      → LifecycleIndex
      → List CandidateAttempt
      → Outcome Error (List AttributionResult)
  initial_attributions candidates decisions lifecycle accepted = do
    installs ←
        map_each (λ a. make_attribution dg a candidates decisions lifecycle)
          (filter is_install accepted)
    ok (
        sort_by_key od.of_attribution
          (installs
            ++ (map (λ a. make_aggregate_postback_attribution a lifecycle)
                  (filter
                    (λ a. is_event "skan_postback" a || is_event "adattributionkit_postback" a)
                    accepted)
                ++ map (λ a. make_deep_link_attribution a lifecycle)
                    (filter (is_event "deep_link_open") accepted)))
          (λ r. r.attribution_id ∷ r.tenant_id ∷ r.app_id ∷ []))

  -- From the decided attempts to the ledger.
  unfoldable pub ledger_of :
      Input → CandidateProvider → List CandidateAttempt → Decisions → Outcome Error Ledger
  ledger_of i candidates all listed = do
    let decisions = map_of listed []
    assert_installation_anchors dg all decisions
    let lifecycle = privacy_index i.privacy_requests i.retention_expirations
    accepted ← accepted_unique dg decisions all
    decided ← map_each (with_decision dg decisions) all
    let conflicts = map (λ p. p.0) (filter (λ p. is_conflict_reason p.1.reason_code) decided)
    raw_records ← raw_records_of lifecycle (accepted ++ conflicts)
    attributions ← initial_attributions candidates decisions lifecycle accepted
    ok (record {
      raw_records = raw_records;
      deliveries = deliveries_of decided;
      logical_events = logical_events_of lifecycle accepted;
      corrections = corrections_of i accepted;
      privacy_tombstones = tombstones_of i;
      attributions = attributions;
      rejections = rejections_of listed;
    })

  unfoldable pub evaluate :
      Input → (List CandidateAttempt → CandidateProvider) → Outcome Failure Ledger
  evaluate i candidate_provider_factory = do
    let all = sort_candidate_attempts dg i.all_attempts
    let candidates = candidate_provider_factory all
    as_input (assert_import_provider_contexts all)
    as_input (assert_revenue_anchor_sources all)
    as_input (
        assert_scoped_references all i.privacy_requests i.correction_inputs i.retention_expirations)
    listed ← as_evaluator (decide_each dg candidates all)
    as_evaluator (ledger_of i candidates all listed)
