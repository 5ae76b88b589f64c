-- ===== src/Attribution/Outputs.antt =====
-- The ledger that `evaluate` of packages/attribution-core/src/evaluator.ts gives out: raw records
-- (`makeRawRecord`), deliveries, logical events, corrections, tombstones and rejections. Constant
-- fields, and those of a record that no decision reads, are left out.
pub mod Ledger
pub mod Built
pub mod Erasure
pub mod Answers
use Prim.Native.String
use open_mmp.Common.{
  Bool, true, false, not, List, [], ◌∷◌, ◌++◌, map, Option, none, some, String, filter, lookup,
  is_some, if◌then◌else◌, Outcome, ok, throw, ◌>>=◌,
}
use open_mmp.Attribution.Types.{StalePolicy, Payload, CandidateAttempt, Digests}
use open_mmp.Attribution.Errors.{Error}
use open_mmp.Attribution.Candidates.{key_eq}
use open_mmp.Attribution.Consent.{ConsentDecision, ConsentReason, consent_decision}
use open_mmp.Attribution.Decide.{
  IngestionStatus, DuplicateResolution, ReasonCode, PayloadDisposition, Decision,
}
use open_mmp.Attribution.Results.{
  Lifecycle, LifecycleIndex, Decisions, attempt_evidence_key, decision_for,
}
use open_mmp.Attribution.Lifecycle.{AffectedRecord, PrivacyRequest}
use open_mmp.Attribution.Inputs.{CorrectionInput, is_refund}

pub record RawRecord : Type 0 where
  pub record_id : String
  pub tenant_id : String
  pub app_id : String
  pub producer : String
  pub event_id : String
  pub delivery_id : String
  pub event_name : String
  pub schema_version : String
  pub payload_sha256 : String
  pub occurred_at : String
  pub received_at : String
  pub payload_lifecycle_status : Lifecycle
  pub raw_payload_ref : String
  pub consent : ConsentDecision  -- its fields but `allowed`

abbrev pub payload_ref : Lifecycle → String → String
payload_ref Lifecycle.available record_id = String.◌++◌ "protected:" record_id
payload_ref _ record_id = String.◌++◌ "tombstone:" record_id

unfoldable pub make_raw_record : Digests → CandidateAttempt → Lifecycle → Outcome Error RawRecord
make_raw_record dg a lifecycle = do
  consent ← consent_decision a
  ok (record {
    record_id = a.event.record_id;
    tenant_id = a.server.tenant_id;
    app_id = a.server.app_id;
    producer = a.event.producer;
    event_id = a.event.event_id;
    delivery_id = a.event.delivery_id;
    event_name = a.event.event_name;
    schema_version = a.event.schema_version;
    payload_sha256 = dg.payload_digest a.event.payload;
    occurred_at = a.event.occurred_at;
    received_at = a.event.received_at;
    payload_lifecycle_status = lifecycle;
    raw_payload_ref = payload_ref lifecycle a.event.record_id;
    consent = consent;
  })

-- A delivery is the attempt with its decision; the consent's `allowed` is not given out.
pub record Delivery : Type 0 where
  pub delivery_id : String
  pub record_id : String
  pub canonical_record_id : Option String
  pub tenant_id : String
  pub app_id : String
  pub received_at : String
  pub ingestion_status : IngestionStatus
  pub duplicate_resolution : DuplicateResolution
  pub late : Bool
  pub clock_skew_suspected : Bool
  pub payload_disposition : PayloadDisposition
  pub consent : ConsentDecision
  pub reason_code : Option ReasonCode
  pub staleness_policy : Option StalePolicy

abbrev pub make_delivery : CandidateAttempt → Decision → Delivery
make_delivery a d = record {
  delivery_id = a.event.delivery_id;
  record_id = a.event.record_id;
  canonical_record_id = d.canonical_record_id;
  tenant_id = a.server.tenant_id;
  app_id = a.server.app_id;
  received_at = a.event.received_at;
  ingestion_status = d.ingestion_status;
  duplicate_resolution = d.duplicate_resolution;
  late = d.late;
  clock_skew_suspected = d.clock_skew_suspected;
  payload_disposition = d.payload_disposition;
  consent = d.consent;
  reason_code = d.reason_code;
  staleness_policy = d.staleness_policy;
}

pub record LogicalEvent : Type 0 where
  pub logical_event_id : String
  pub record_id : String
  pub tenant_id : String
  pub app_id : String
  pub producer : String
  pub event_id : String
  pub event_name : String
  pub late : Bool

-- Texts with colons between them.
abbrev pub joined : String → List String → String
joined s [] = s
joined s (t ∷ ts) = String.◌++◌ s (String.◌++◌ ":" (joined t ts))

abbrev pub make_logical_event : CandidateAttempt → LogicalEvent
make_logical_event a = record {
  logical_event_id =
      joined "logical"
        (a.server.tenant_id ∷ a.server.app_id ∷ a.event.producer ∷ a.event.event_id ∷ []);
  record_id = a.event.record_id;
  tenant_id = a.server.tenant_id;
  app_id = a.server.app_id;
  producer = a.event.producer;
  event_id = a.event.event_id;
  event_name = a.event.event_name;
  late = a.event.late;
}

-- A refund without a target does not get here: `assertScopedReferences` refuses it.
abbrev pub target_or_empty : Option String → String
target_or_empty none = ""
target_or_empty (some target) = target

abbrev pub refund_correction : CandidateAttempt → CorrectionInput
refund_correction a = record {
  tenant_id = a.server.tenant_id;
  app_id = a.server.app_id;
  correction_id = joined "correction" (a.event.record_id ∷ []);
  corrects_record_id = target_or_empty a.event.payload.correction_target_record_id;
  correction_type = "correction";
  correction_reason = "refund";
  effective_at = some a.event.occurred_at;
}

abbrev pub redaction : PrivacyRequest → AffectedRecord → CorrectionInput
redaction r affected = record {
  tenant_id = r.tenant_id;
  app_id = r.app_id;
  correction_id = joined "correction" (r.privacy_request_id ∷ affected.record_id ∷ []);
  corrects_record_id = affected.record_id;
  correction_type = "redaction";
  correction_reason = r.reason_code;
  effective_at = r.completed_at;
}

pub record Tombstone : Type 0 where
  pub tenant_id : String
  pub app_id : String
  pub privacy_request_id : String
  pub record_id : String
  pub lifecycle_status : Lifecycle
  pub reason_code : String
  pub policy_version : String
  pub provenance_digest : String
  pub created_at : Option String

-- With the digest of the texts of its provenance and the time of completion.
abbrev pub tombstone :
    (List String → Option String → String) → PrivacyRequest → AffectedRecord → Tombstone
tombstone of_provenance r affected = record {
  tenant_id = r.tenant_id;
  app_id = r.app_id;
  privacy_request_id = r.privacy_request_id;
  record_id = affected.record_id;
  lifecycle_status = affected.lifecycle_status;
  reason_code = r.reason_code;
  policy_version = r.policy_version;
  provenance_digest =
      of_provenance (r.tenant_id ∷ r.app_id ∷ r.privacy_request_id ∷ affected.record_id ∷ [])
        r.completed_at;
  created_at = r.completed_at;
}

-- What is made of each record that a completed request affects.
unfoldable pub of_completed {ℓ} :
    {A : Type ℓ} → (PrivacyRequest → AffectedRecord → A) → List PrivacyRequest → List A
of_completed make [] = []
of_completed make (r ∷ rs) =
    let rest = of_completed make rs in
    if r.completed then map (make r) r.affected_records ++ rest else rest

pub data Retained : Type 0 where
  protected_conflict_evidence non_identifying_metadata : Retained

pub record Rejection : Type 0 where
  pub delivery_id : String
  pub record_id : String
  pub tenant_id : String
  pub app_id : String
  pub reason_code : Option ReasonCode
  pub payload_disposition : PayloadDisposition
  pub retained : Retained
  pub consent : ConsentDecision
  pub staleness_policy : Option StalePolicy

abbrev pub retained_of : Option ReasonCode → Retained
retained_of (some ReasonCode.event_id_conflict) = protected_conflict_evidence
retained_of _ = non_identifying_metadata

abbrev pub make_rejection : Decision → Rejection
make_rejection d = record {
  delivery_id = d.delivery_id;
  record_id = d.record_id;
  tenant_id = d.tenant_id;
  app_id = d.app_id;
  reason_code = d.reason_code;
  payload_disposition = d.payload_disposition;
  retained = retained_of d.reason_code;
  consent = d.consent;
  staleness_policy = d.staleness_policy;
}
