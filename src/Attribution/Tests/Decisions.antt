-- ===== src/Attribution/Tests/Decisions.antt =====
-- What becomes of the sample attempts.
use open_mmp.Common.{◌≡◌, ◌↔◌, refl, List, [], ◌∷◌, none, some, true, false}
use open_mmp.Instant.{to_instant}
use open_mmp.Attribution.Types.{CandidateAttempt}
use open_mmp.Attribution.Errors.{time}
use open_mmp.Attribution.Candidates.{fixture_provider, indexed_provider}
use open_mmp.Attribution.Candidates.Indexed.{indexed-eq-fixture}
use open_mmp.Attribution.Consent.{
  ConsentDecision, consent_not_required, documented_alternative_legal_basis, decision_of, by_basis,
  consent_decision, covers, find_basis,
}
use open_mmp.Attribution.Consent.Laws.{Claim, consent_decision-Claim}
use open_mmp.Attribution.Decide.{
  DuplicateResolution, accepted, Decision, duplicate_resolution, rejection_reason, decided, decide,
  decision_key,
}
use open_mmp.Attribution.Decide.Laws.{decide-accepted_iff}
use open_mmp.Attribution.Decide.Ladder.{Admissible}
use open_mmp.Attribution.Decide.Scope.{unique_in_scope}
use open_mmp.Attribution.Tests.Samples.{digests, click, install, withdrawn}

deciding : Unit {0}
unfolding decide duplicate_resolution rejection_reason consent_decision covers find_basis time
    to_instant
deciding = tt

abbrev both : List CandidateAttempt
both = click ∷ install ∷ []

-- The install of a withdrawn consent is accepted under its legal basis.
abbrev consent_withdrawn_install : ConsentDecision
consent_withdrawn_install = by_basis withdrawn (
    some (record {
      alternative_legal_basis_id = "fraud";
      processing_purpose_id = "ads";
      effective_at = "2026-01-01T00:00:00.000Z";
      policy_version = "b1";
    }))

abbrev installed : Decision
installed =
    decided install (fixture_provider both) DuplicateResolution.unique
      (decision_of install true consent_not_required) none false

consent_decision-Claim_example :
    Claim withdrawn consent_withdrawn_install documented_alternative_legal_basis
unfolding deciding
consent_decision-Claim_example = consent_decision-Claim withdrawn consent_withdrawn_install refl

decide-accepted_iff_example : (accepted ≡ accepted) ↔ Admissible install installed
unfolding deciding
decide-accepted_iff_example =
    decide-accepted_iff digests install (fixture_provider both) installed refl

unique_in_scope_example : decision_key digests install ≡ decision_key digests install
unfolding deciding
unique_in_scope_example =
    unique_in_scope digests both install install installed installed refl refl refl refl refl

indexed-eq-fixture_example : indexed_provider both ≡ fixture_provider both
indexed-eq-fixture_example = indexed-eq-fixture both
