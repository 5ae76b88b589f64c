-- ===== src/Attribution/Decide.antt =====
-- `decide` of packages/attribution-core/src/evaluator.ts: what becomes of one attempt, among the
-- candidates of the whole input. Its test order is the source's; a policy's digest is compared with
-- that of its canonical fields.
pub mod Ladder
pub mod Laws
pub mod Scope
use open_mmp.Common.{
  ℕ, ◌+◌, Bool, true, false, not, ◌&&◌, ◌||◌, List, [], ◌∷◌, Option, none, some, String, str_eq,
  truthy, ltb, first, length, if◌then◌else◌, Outcome, ok, throw, ◌>>=◌, ◌>>◌,
}
use open_mmp.Attribution.Types.{
  StalePolicy, ClickInjectionPolicy, Server, Record, CandidateAttempt, Digests,
}
use open_mmp.Attribution.Errors.{
  Error, time, stale_policy_digest_mismatch, click_policy_digest_mismatch, first_missing,
}
use open_mmp.Attribution.Candidates.{CandidateProvider, CompositeKey, composite_key, key_eq}
use open_mmp.Attribution.Consent.{ConsentDecision, consent_decision}

pub data DuplicateResolution : Type 0 where
  unique duplicate_delivery event_id_conflict record_id_collision : DuplicateResolution

pub data IngestionStatus : Type 0 where
  accepted rejected : IngestionStatus

pub data ReasonCode : Type 0 where
  client_scope_mismatch record_id_collision consent_withdrawn timestamp_stale : ReasonCode
  aggregate_installation_join_forbidden event_id_conflict timestamp_invalid : ReasonCode

pub data PayloadDisposition : Type 0 where
  discarded protected : PayloadDisposition

pub record Decision : Type 0 where
  pub record_id : String
  pub canonical_record_id : Option String
  pub delivery_id : String
  pub event_name : String
  pub tenant_id : String
  pub app_id : String
  pub ingestion_status : IngestionStatus
  pub duplicate_resolution : DuplicateResolution
  pub late : Bool  -- timeliness === "late"
  pub clock_skew_suspected : Bool
  pub payload_disposition : PayloadDisposition
  pub consent : ConsentDecision
  pub staleness_policy : Option StalePolicy
  pub reason_code : Option ReasonCode

module _ (dg : Digests) where
  open dg use {record_digest, payload_digest, stale_policy_digest, click_policy_digest}

  -- `attemptDecisionKey`.
  abbrev pub decision_key : CandidateAttempt → CompositeKey
  decision_key a = composite_key (
      some a.batch_id
      ∷ some a.server.tenant_id
      ∷ some a.server.app_id
      ∷ some a.event.delivery_id
      ∷ some a.event.record_id
      ∷ some a.event.schema_version
      ∷ some (record_digest a.event)
      ∷ [])

  abbrev pub check_stale_policy : Option StalePolicy → Outcome Error (Unit {0})
  check_stale_policy none = ok tt
  check_stale_policy (some p) =
      if str_eq p.policy_digest (stale_policy_digest p.before p.authority p.policy_version)
      then ok tt
      else throw stale_policy_digest_mismatch

  abbrev pub check_click_policy : Option ClickInjectionPolicy → Outcome Error (Unit {0})
  check_click_policy none = ok tt
  check_click_policy (some p) =
      if str_eq p.policy_digest
        (click_policy_digest p.threshold_seconds p.authority p.policy_version)
      then ok tt
      else throw click_policy_digest_mismatch

  -- The attempt against the first of its logical scope.
  abbrev pub against_first :
      CandidateAttempt → Option CandidateAttempt → Outcome Error DuplicateResolution
  against_first a none = throw first_missing
  against_first a (some f) =
      if key_eq.beq (decision_key f) (decision_key a)
      then ok unique
      else if str_eq (payload_digest f.event.payload) (payload_digest a.event.payload)
      then ok duplicate_delivery
      else ok event_id_conflict

  unfoldable pub duplicate_resolution :
      CandidateAttempt → CandidateProvider → Outcome Error DuplicateResolution
  duplicate_resolution a candidates =
      if ltb 1 (length (candidates.by_record_id a.event.record_id))
      then ok record_id_collision
      else against_first a (first (candidates.by_logical_scope a))

-- `record.occurred_at` is before the policy's bound.
abbrev pub is_stale : CandidateAttempt → Option StalePolicy → Outcome Error Bool
is_stale a none = ok false
is_stale a (some p) = do
  occurred ← time (some a.event.occurred_at) "occurred_at"
  bound ← time (some p.before) "timestamp_stale_policy.before"
  ok (ltb occurred bound)

abbrev pub is_scope_mismatch : CandidateAttempt → Bool
is_scope_mismatch a =
    not (str_eq a.event.tenant_id a.server.tenant_id) || not (str_eq a.event.app_id a.server.app_id)

abbrev pub is_aggregate_join : CandidateAttempt → Bool
is_aggregate_join a = a.event.aggregate_scope && truthy a.event.payload.installation_id

abbrev pub is_collision : DuplicateResolution → Bool
is_collision record_id_collision = true
is_collision _ = false

abbrev pub is_conflict : DuplicateResolution → Bool
is_conflict event_id_conflict = true
is_conflict _ = false

-- The last tests of the ladder, once the time is known not to be stale.
abbrev pub late_reason : CandidateAttempt → DuplicateResolution → Bool → Option ReasonCode
late_reason a dup stale =
    if stale
    then some timestamp_stale
    else if is_aggregate_join a
    then some aggregate_installation_join_forbidden
    else if is_conflict dup
    then some ReasonCode.event_id_conflict
    else none

-- The ladder that sets `ingestion_status` and `reason_code`: an attempt is rejected exactly if it
-- has a reason.
unfoldable pub rejection_reason :
    CandidateAttempt → DuplicateResolution → ConsentDecision → Outcome Error (Option ReasonCode)
rejection_reason a dup consent =
    if is_scope_mismatch a
    then ok (some client_scope_mismatch)
    else if is_collision dup
    then ok (some ReasonCode.record_id_collision)
    else if not consent.allowed
    then ok (some ReasonCode.consent_withdrawn)
    else is_stale a a.server.timestamp_stale_policy >>= λ stale. ok (late_reason a dup stale)

abbrev pub status_of : Option ReasonCode → IngestionStatus
status_of none = accepted
status_of (some r) = rejected

-- A conflicting payload is kept as evidence.
abbrev pub disposition_of : Option ReasonCode → PayloadDisposition
disposition_of none = protected
disposition_of (some ReasonCode.event_id_conflict) = protected
disposition_of (some _) = discarded

abbrev pub canonical_record_id :
    CandidateAttempt → DuplicateResolution → Option CandidateAttempt → Option String
canonical_record_id a record_id_collision f = none
canonical_record_id a unique f = some a.event.record_id
canonical_record_id a _ none = none
canonical_record_id a _ (some f) = some f.event.record_id

abbrev pub policy_if_stale : Option ReasonCode → Option StalePolicy → Option StalePolicy
policy_if_stale (some timestamp_stale) p = p
policy_if_stale _ p = none

-- The clock skew that is tolerated, in milliseconds.
abbrev pub skew_tolerance : ℕ
skew_tolerance = 300000

abbrev pub decided :
    CandidateAttempt
    → CandidateProvider
    → DuplicateResolution
    → ConsentDecision
    → Option ReasonCode
    → Bool
    → Decision
decided a candidates dup consent reason skewed = record {
  record_id = a.event.record_id;
  canonical_record_id = canonical_record_id a dup (first (candidates.by_logical_scope a));
  delivery_id = a.event.delivery_id;
  event_name = a.event.event_name;
  tenant_id = a.server.tenant_id;
  app_id = a.server.app_id;
  ingestion_status = status_of reason;
  duplicate_resolution = dup;
  late = a.event.late;
  clock_skew_suspected = skewed;
  payload_disposition = disposition_of reason;
  consent = consent;
  staleness_policy = policy_if_stale reason a.server.timestamp_stale_policy;
  reason_code = reason;
}

unfoldable pub decide : Digests → CandidateAttempt → CandidateProvider → Outcome Error Decision
decide dg a candidates = do
  check_stale_policy dg a.server.timestamp_stale_policy
  check_click_policy dg a.server.click_injection_policy
  dup ← duplicate_resolution dg a candidates
  consent ← consent_decision a
  reason ← rejection_reason a dup consent
  occurred ← time (some a.event.occurred_at) "occurred_at"
  received ← time (some a.event.received_at) "received_at"
  ok (decided a candidates dup consent reason (ltb (received + skew_tolerance) occurred))
