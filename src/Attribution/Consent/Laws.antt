-- ===== src/Attribution/Consent/Laws.antt =====
-- Why a record is processed or not: each consent decision with the reason that it states.
use mathlib.Core.List.{Memᴰ}
use mathlib.Core.Path.{subst}
use open_mmp.Common.{
  ◌≤◌, ◌≡◌, ◌⊎◌, inl, inr, refl, true, false, Option, none, some, ok, >>=-eq-ok, arith, All,
  Bool-cases, Option-cases, truthy,
}
use open_mmp.Attribution.Types.{Withdrawal, LegalBasis, CandidateAttempt}
use open_mmp.Attribution.Consent.{
  ConsentReason, consent_not_required, consent_valid_before_withdrawal,
  documented_alternative_legal_basis, consent_withdrawn, ConsentDecision, is_control_event,
  purpose_of, withdrawal_of, requires_consent, precedes, is_exempt, find_basis, decision_of,
  by_basis, consent_decision, invalid_consent_reason,
}
use open_mmp.Attribution.Consent.Basis.{Covers, Found, find_basis-Found}

-- No consent is asked for: the record names no purpose, or one that needs none, or is itself a
-- change of consent or of privacy.
abbrev pub NeedsNoConsent : CandidateAttempt → Type 0
NeedsNoConsent a =
    (truthy a.event.processing_purpose_id ≡ false)
    ⊎ ((requires_consent (purpose_of a) ≡ false) ⊎ (is_control_event a.event ≡ true))

-- The record comes after the withdrawal of its purpose.
abbrev pub IsWithdrawn : CandidateAttempt → Type 0
IsWithdrawn a =
    (w : Withdrawal) × (withdrawal_of a ≡ some w)
    × (w.withdrawal_recognized_sequence ≤ a.event.processing_sequence)

-- What each reason claims of the attempt.
abbrev pub Claim : CandidateAttempt → ConsentDecision → ConsentReason → Type 0
Claim a d consent_not_required = (d.allowed ≡ true) × NeedsNoConsent a
Claim a d consent_valid_before_withdrawal =
    (d.allowed ≡ true) × (¬ NeedsNoConsent a) × (¬ IsWithdrawn a)
Claim a d documented_alternative_legal_basis =
    (d.allowed ≡ true)
    × IsWithdrawn a
    × ((b : LegalBasis) × Memᴰ b a.server.alternative_legal_bases
        × Covers a.event b
        × (d.alternative_legal_basis_id ≡ some b.alternative_legal_basis_id)
        × (d.alternative_legal_basis_policy_version ≡ some b.policy_version))
Claim a d consent_withdrawn =
    (d.allowed ≡ false)
    × (¬ NeedsNoConsent a)
    × IsWithdrawn a
    × All (λ b. ¬ Covers a.event b) a.server.alternative_legal_bases

is_exempt_sound : (a : CandidateAttempt) → is_exempt a ≡ true → NeedsNoConsent a
is_exempt_sound a h = ground arith

is_exempt_complete : (a : CandidateAttempt) → is_exempt a ≡ false → ¬ NeedsNoConsent a
is_exempt_complete a h = ground arith

precedes_sound :
    (a : CandidateAttempt)
    → precedes a.event.processing_sequence (withdrawal_of a) ≡ true
    → ¬ IsWithdrawn a
precedes_sound a h (w, e, le) = ground (arith, rw e at h)

precedes_complete :
    (a : CandidateAttempt)
    → precedes a.event.processing_sequence (withdrawal_of a) ≡ false
    → IsWithdrawn a
precedes_complete a h = elim (Option-cases (withdrawal_of a)) [
  | inl e ↦ cc (rw e at h)
  | inr (w, e) ↦ (w, e, ground (arith, rw e at h))
]

by_basis-Claim :
    (a : CandidateAttempt) (o : Option LegalBasis)
    → ¬ NeedsNoConsent a
    → IsWithdrawn a
    → Found a.event a.server.alternative_legal_bases o
    → Claim a (by_basis a o) (by_basis a o).consent_decision_reason_code
by_basis-Claim a none n w f = (refl, n, w, f)
by_basis-Claim a (some b) n w (m, c) = (refl, w, (b, m, c, refl, refl))

-- Whenever the consent decision is reached, the reason that it states holds of the attempt: a
-- record is refused exactly as `Claim` says for `consent_withdrawn`, and let through under a legal
-- basis only if that basis is listed, named by the record and in effect when it was received.
pub consent_decision-Claim :
    (a : CandidateAttempt) (d : ConsentDecision)
    → consent_decision a ≡ ok d
    → Claim a d d.consent_decision_reason_code
unfolding consent_decision
consent_decision-Claim a d h = elim (Bool-cases (is_exempt a)) [
  | inl e ↦
      let same : decision_of a true consent_not_required ≡ d = cc (rw e at h) in
      subst (λ x. Claim a x x.consent_decision_reason_code) same (refl, is_exempt_sound a e)
  | inr e ↦ elim (Bool-cases (precedes a.event.processing_sequence (withdrawal_of a))) [
    | inl p ↦
        let same : decision_of a true consent_valid_before_withdrawal ≡ d = cc (rw (e, p) at h) in
        subst (λ x. Claim a x x.consent_decision_reason_code) same
          (refl, is_exempt_complete a e, precedes_sound a p)
    | inr p ↦
        let (o, found, k) =
          >>=-eq-ok (find_basis a.event a.server.alternative_legal_bases) _ (rw (e, p) at h) in
        let same : by_basis a o ≡ d = cc k in
        subst (λ x. Claim a x x.consent_decision_reason_code) same
          (by_basis-Claim a o (is_exempt_complete a e) (precedes_complete a p)
            (find_basis-Found a.event a.server.alternative_legal_bases o found))
  ]
]

by_basis-reason :
    (a : CandidateAttempt) (o : Option LegalBasis) (d : ConsentDecision)
    → by_basis a o ≡ d
    → (consent_withdrawn ≡ d.consent_decision_reason_code)
      ⊎ ((consent_withdrawn ≡ consent_withdrawn)
          × (d.consent_decision_reason_code ≡ documented_alternative_legal_basis))
by_basis-reason a none d h = ground arith
by_basis-reason a (some b) d h = ground arith

-- The reason that an attempt with an unreadable time is given is the reason of its consent
-- decision, where there is one, except that no legal basis is consulted.
pub invalid_consent_reason-eq :
    (a : CandidateAttempt) (d : ConsentDecision)
    → consent_decision a ≡ ok d
    → (invalid_consent_reason a ≡ d.consent_decision_reason_code)
      ⊎ ((invalid_consent_reason a ≡ consent_withdrawn)
          × (d.consent_decision_reason_code ≡ documented_alternative_legal_basis))
unfolding consent_decision invalid_consent_reason
invalid_consent_reason-eq a d h = elim (Bool-cases (is_exempt a)) [
  | inl e ↦ rw e (inl (cc (rw e at h)))
  | inr e ↦ elim (Bool-cases (precedes a.event.processing_sequence (withdrawal_of a))) [
    | inl p ↦ rw (e, p) (inl (cc (rw (e, p) at h)))
    | inr p ↦
        let (o, _, k) =
          >>=-eq-ok (find_basis a.event a.server.alternative_legal_bases) _ (rw (e, p) at h) in
        let same : by_basis a o ≡ d = cc k in rw (e, p) (by_basis-reason a o d same)
  ]
]
