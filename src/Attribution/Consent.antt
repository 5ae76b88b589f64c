-- ===== src/Attribution/Consent.antt =====
-- `isControlEvent`, `consentDecision` and `timestampInvalidDecision` of
-- packages/attribution-core/src/evaluator.ts.
pub mod Basis
pub mod Laws
use open_mmp.Common.{
  ℕ, Bool, true, false, not, ◌&&◌, ◌||◌, List, [], ◌∷◌, Option, none, some, String, str_eq, opt_eq,
  truthy, find, ltb, leb, if◌then◌else◌, Outcome, ok, throw, ◌>>=◌,
}
use open_mmp.Attribution.Types.{
  ProcessingPurpose, Withdrawal, LegalBasis, Server, Record, CandidateAttempt,
}
use open_mmp.Attribution.Errors.{Error, time}

pub data ConsentReason : Type 0 where
  consent_not_required consent_valid_before_withdrawal : ConsentReason
  documented_alternative_legal_basis consent_withdrawn : ConsentReason

pub record ConsentDecision : Type 0 where
  pub processing_purpose_id : Option String
  pub consent_evaluation_policy_version : String
  pub withdrawal_recognized_at : Option String
  pub allowed : Bool
  pub consent_decision_reason_code : ConsentReason
  pub alternative_legal_basis_id : Option String
  pub alternative_legal_basis_policy_version : Option String

abbrev pub is_control_event : Record → Bool
is_control_event r = str_eq r.event_name "consent_changed" || str_eq r.event_name "privacy_control"

-- The purpose and the withdrawal that the server knows for the purpose of the record.
abbrev pub purpose_of : CandidateAttempt → Option ProcessingPurpose
purpose_of a =
    find (λ p. opt_eq (some p.processing_purpose_id) a.event.processing_purpose_id)
      a.server.processing_purposes

abbrev pub withdrawal_of : CandidateAttempt → Option Withdrawal
withdrawal_of a =
    find (λ w. opt_eq (some w.processing_purpose_id) a.event.processing_purpose_id)
      a.server.withdrawals

-- `purpose?.consent_required`, `purpose?.policy_version ?? "not-applicable"`, and so on.
abbrev pub requires_consent : Option ProcessingPurpose → Bool
requires_consent none = false
requires_consent (some p) = p.consent_required

abbrev pub purpose_version : Option ProcessingPurpose → String
purpose_version none = "not-applicable"
purpose_version (some p) = p.policy_version

abbrev pub recognized_at : Option Withdrawal → Option String
recognized_at none = none
recognized_at (some w) = some w.withdrawal_recognized_at

-- The record comes before the withdrawal, or there is none.
abbrev pub precedes : ℕ → Option Withdrawal → Bool
precedes sequence none = true
precedes sequence (some w) = ltb sequence w.withdrawal_recognized_sequence

abbrev pub is_exempt : CandidateAttempt → Bool
is_exempt a =
    not (truthy a.event.processing_purpose_id)
    || not (requires_consent (purpose_of a))
    || is_control_event a.event

-- The test of the search for a legal basis: the times are read only where the identifiers fit.
unfoldable pub covers : Record → LegalBasis → Outcome Error Bool
covers r b =
    if opt_eq (some b.alternative_legal_basis_id) r.alternative_legal_basis_id
      && opt_eq (some b.processing_purpose_id) r.processing_purpose_id
    then (do
      effective ← time (some b.effective_at) "effective_at"
      received ← time (some r.received_at) "received_at"
      ok (leb effective received))
    else ok false

unfoldable pub find_basis : Record → List LegalBasis → Outcome Error (Option LegalBasis)
find_basis r [] = ok none
find_basis r (b ∷ bs) =
    let rest = find_basis r bs in covers r b >>= λ found. if found then ok (some b) else rest

-- `{ ...base, allowed, consent_decision_reason_code }`.
abbrev pub decision_of : CandidateAttempt → Bool → ConsentReason → ConsentDecision
decision_of a allowed reason = record {
  processing_purpose_id = a.event.processing_purpose_id;
  consent_evaluation_policy_version = purpose_version (purpose_of a);
  withdrawal_recognized_at = recognized_at (withdrawal_of a);
  allowed = allowed;
  consent_decision_reason_code = reason;
  alternative_legal_basis_id = none;
  alternative_legal_basis_policy_version = none;
}

abbrev pub by_basis : CandidateAttempt → Option LegalBasis → ConsentDecision
by_basis a none = decision_of a false consent_withdrawn
by_basis a (some b) = record (decision_of a true documented_alternative_legal_basis) {
  alternative_legal_basis_id = some b.alternative_legal_basis_id;
  alternative_legal_basis_policy_version = some b.policy_version;
}

unfoldable pub consent_decision : CandidateAttempt → Outcome Error ConsentDecision
consent_decision a =
    if is_exempt a
    then ok (decision_of a true consent_not_required)
    else if precedes a.event.processing_sequence (withdrawal_of a)
    then ok (decision_of a true consent_valid_before_withdrawal)
    else do basis ← find_basis a.event a.server.alternative_legal_bases; ok (by_basis a basis)

-- The reason that `timestampInvalidDecision` gives.
unfoldable pub invalid_consent_reason : CandidateAttempt → ConsentReason
invalid_consent_reason a =
    if is_exempt a
    then consent_not_required
    else if precedes a.event.processing_sequence (withdrawal_of a)
    then consent_valid_before_withdrawal
    else consent_withdrawn
