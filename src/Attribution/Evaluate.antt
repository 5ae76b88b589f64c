-- ===== src/Attribution/Evaluate.antt =====
-- How `evaluate` of packages/attribution-core/src/evaluator.ts decides on its attempts:
-- `timestampInvalidDecision`, the handler that calls it, the map of decisions, and the attempts
-- that count. The attempts are in their order; that of `sortCandidateAttempts` is not modelled.
pub mod Choices
pub mod Laws
use open_mmp.Common.{
  Bool, true, false, List, [], ◌∷◌, Option, none, some, insert, Outcome, ok, throw, ◌>>=◌,
}
use open_mmp.Attribution.Types.{CandidateAttempt, Digests}
use open_mmp.Attribution.Errors.{Error, timestamp_invalid}
use open_mmp.Attribution.Candidates.{CandidateProvider, CompositeKey, key_eq}
use open_mmp.Attribution.Consent.{decision_of, invalid_consent_reason}
use open_mmp.Attribution.Decide.{
  DuplicateResolution, rejected, ReasonCode, discarded, Decision, decision_key, decide,
}
use open_mmp.Attribution.Results.{Decisions, filter_counted}

-- `timestampInvalidDecision`: its `allowed`, which the source leaves out and nothing reads, is
-- false.
abbrev pub invalid_decision : CandidateAttempt → Decision
invalid_decision a = record {
  record_id = a.event.record_id;
  canonical_record_id = none;
  delivery_id = a.event.delivery_id;
  event_name = a.event.event_name;
  tenant_id = a.server.tenant_id;
  app_id = a.server.app_id;
  ingestion_status = rejected;
  duplicate_resolution = DuplicateResolution.unique;
  late = false;
  clock_skew_suspected = false;
  payload_disposition = discarded;
  consent = decision_of a false (invalid_consent_reason a);
  staleness_policy = none;
  reason_code = some ReasonCode.timestamp_invalid;
}

-- The `catch` around `decide`.
abbrev pub caught : CandidateAttempt → Outcome Error Decision → Outcome Error Decision
caught a (ok d) = ok d
caught a (throw (timestamp_invalid field value)) = ok (invalid_decision a)
caught a (throw e) = throw e

unfoldable pub decide_or_invalid :
    Digests → CandidateProvider → CandidateAttempt → Outcome Error Decision
decide_or_invalid dg candidates a = caught a (decide dg a candidates)

-- The decisions of the attempts in turn, each with its key.
unfoldable pub decide_each :
    Digests → CandidateProvider → List CandidateAttempt → Outcome Error Decisions
decide_each dg candidates [] = ok []
decide_each dg candidates (a ∷ rest) = do
  d ← decide_or_invalid dg candidates a
  ds ← decide_each dg candidates rest
  ok ((decision_key dg a, d) ∷ ds)

-- `new Map`: a later entry takes the place of an earlier one with its key.
unfoldable pub map_of : Decisions → Decisions → Decisions
map_of [] index = index
map_of ((key, d) ∷ rest) index = map_of rest (insert ⦃e = key_eq⦄ key d index)

unfoldable pub decide_all :
    Digests → CandidateProvider → List CandidateAttempt → Outcome Error Decisions
decide_all dg candidates all = do ds ← decide_each dg candidates all; ok (map_of ds [])

-- `acceptedUnique`.
abbrev pub accepted_unique :
    Digests → Decisions → List CandidateAttempt → Outcome Error (List CandidateAttempt)
accepted_unique dg decisions all = filter_counted dg decisions (λ a. true) all
