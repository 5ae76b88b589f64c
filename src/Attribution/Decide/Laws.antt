-- ===== src/Attribution/Decide/Laws.antt =====
-- When an attempt is accepted, and what a rejection keeps of it.
use mathlib.Core.Path.{subst}
use open_mmp.Common.{
  ℕ, ◌+◌, ◌≡◌, ◌↔◌, refl, sym, ap, ◌∙◌, ◌⊎◌, Option, none, some, ltb, ok, >>=-eq-ok, arith,
}
use open_mmp.Instant.{to_instant}
use open_mmp.Attribution.Types.{CandidateAttempt, Digests}
use open_mmp.Attribution.Errors.{time}
use open_mmp.Attribution.Candidates.{CandidateProvider}
use open_mmp.Attribution.Consent.{consent_decision}
use open_mmp.Attribution.Consent.Basis.{time-eq-ok}
use open_mmp.Attribution.Decide.{
  accepted, ReasonCode, protected, Decision, check_stale_policy, check_click_policy,
  duplicate_resolution, status_of, disposition_of, rejection_reason, decided, decide,
  skew_tolerance,
}
use open_mmp.Attribution.Decide.Ladder.{Admissible, rejection_reason-Rung, reason-none_iff}

-- The parts of a decision that was reached.
pub record Reached (dg : Digests) (a : CandidateAttempt) (c : CandidateProvider) (d : Decision)
    : Type 0 where
  pub stale_policy : check_stale_policy dg a.server.timestamp_stale_policy ≡ ok tt
  pub click_policy : check_click_policy dg a.server.click_injection_policy ≡ ok tt
  pub duplicate : duplicate_resolution dg a c ≡ ok d.duplicate_resolution
  pub consent : consent_decision a ≡ ok d.consent
  pub reason : rejection_reason a d.duplicate_resolution d.consent ≡ ok d.reason_code
  pub occurred : ℕ
  pub received : ℕ
  pub occurred_at : to_instant a.event.occurred_at ≡ some occurred
  pub received_at : to_instant a.event.received_at ≡ some received
  pub result : d ≡ decided a c d.duplicate_resolution d.consent d.reason_code d.clock_skew_suspected

module _ (dg : Digests) (a : CandidateAttempt) (c : CandidateProvider) (d : Decision) where
  pub decide-Reached : decide dg a c ≡ ok d → Reached dg a c d
  unfolding decide
  decide-Reached h =
      let (u, stale, h₁) = >>=-eq-ok (check_stale_policy dg a.server.timestamp_stale_policy) _ h in
      let (v, click, h₂) = >>=-eq-ok (check_click_policy dg a.server.click_injection_policy) _ h₁ in
      let (dup, duplicate, h₃) = >>=-eq-ok (duplicate_resolution dg a c) _ h₂ in
      let (consent, consented, h₄) = >>=-eq-ok (consent_decision a) _ h₃ in
      let (reason, reasoned, h₅) = >>=-eq-ok (rejection_reason a dup consent) _ h₄ in
      let (occurred, o, h₆) = >>=-eq-ok (time (some a.event.occurred_at) "occurred_at") _ h₅ in
      let (received, r, h₇) = >>=-eq-ok (time (some a.event.received_at) "received_at") _ h₆ in
      let same : decided a c dup consent reason (ltb (received + skew_tolerance) occurred) ≡ d =
        cc h₇ in
      subst (Reached dg a c) same (record {
        stale_policy = stale;
        click_policy = click;
        duplicate = duplicate;
        consent = consented;
        reason = reasoned;
        occurred = occurred;
        received = received;
        occurred_at = time-eq-ok _ _ o;
        received_at = time-eq-ok _ _ r;
        result = refl;
      })

accepted_iff : (r : Option ReasonCode) → (status_of r ≡ accepted) ↔ (r ≡ none)
accepted_iff none = ground arith
accepted_iff (some r) = ground arith

-- An attempt whose decision is reached is accepted exactly if its tenant and app are those of the
-- server's context, its record id is its own, it is not a conflict, its consent decision allows
-- it, it is no older than the stale policy's bound, and it is no aggregate event that names an
-- installation.
pub decide-accepted_iff :
    (dg : Digests) (a : CandidateAttempt) (c : CandidateProvider) (d : Decision)
    → decide dg a c ≡ ok d
    → (d.ingestion_status ≡ accepted) ↔ Admissible a d
decide-accepted_iff dg a c d h =
    let reached = decide-Reached dg a c d h in
    let rung =
      rejection_reason-Rung a d.duplicate_resolution d.consent d.reason_code reached.reason in
    let (to, from) = reason-none_iff a d rung in
    let status : d.ingestion_status ≡ status_of d.reason_code =
      ap (λ (x : Decision). x.ingestion_status) reached.result in
    (
      λ e. to ((accepted_iff d.reason_code).0 (sym status ∙ e)),
      λ m. status ∙ (accepted_iff d.reason_code).1 (from m),
    )

protected_iff :
    (r : Option ReasonCode)
    → (disposition_of r ≡ protected)
      ↔ ((status_of r ≡ accepted) ⊎ (r ≡ some ReasonCode.event_id_conflict))
protected_iff none = ground arith
protected_iff (some ReasonCode.event_id_conflict) = ground arith
protected_iff (some _) = ground arith

-- The payload of a rejected attempt is discarded, unless it is rejected as the conflicting
-- evidence for an event id; the payload of an accepted one is protected.
pub decide-payload_disposition :
    (dg : Digests) (a : CandidateAttempt) (c : CandidateProvider) (d : Decision)
    → decide dg a c ≡ ok d
    → (d.payload_disposition ≡ protected)
      ↔ ((d.ingestion_status ≡ accepted) ⊎ (d.reason_code ≡ some ReasonCode.event_id_conflict))
decide-payload_disposition dg a c d h =
    let same = (decide-Reached dg a c d h).result in
    let disposition : d.payload_disposition ≡ disposition_of d.reason_code =
      ap (λ (x : Decision). x.payload_disposition) same in
    let status : d.ingestion_status ≡ status_of d.reason_code =
      ap (λ (x : Decision). x.ingestion_status) same in
    rw (disposition, status) (protected_iff d.reason_code)
