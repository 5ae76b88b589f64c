-- ===== src/Attribution/Install/Kept.antt =====
-- What `filter_counted` keeps.
use mathlib.Core.Path.{subst}
use open_mmp.Common.{
  ◌≡◌, inl, inr, Bool, true, List, [], ◌∷◌, some, ok, >>=-eq-ok, arith, Bool-cases, Option-cases,
  All, lookup,
}
use open_mmp.Attribution.Types.{CandidateAttempt, Digests}
use open_mmp.Attribution.Candidates.{key_eq}
use open_mmp.Attribution.Decide.{Decision, decision_key, IngestionStatus, DuplicateResolution}
use open_mmp.Attribution.Results.{
  Decisions, found_or_missing, decision_for, is_accepted_unique, filter_counted,
}

module _ (dg : Digests) (decisions : Decisions) where
  -- The candidate has a decision: accepted, and unique in its scope.
  pub record IsCounted (c : CandidateAttempt) : Type 0 where
    pub decision : Decision
    pub decided : lookup ⦃e = key_eq⦄ (decision_key dg c) decisions ≡ some decision
    pub accepted : decision.ingestion_status ≡ IngestionStatus.accepted
    pub unique : decision.duplicate_resolution ≡ DuplicateResolution.unique

  decision_for-eq-ok :
      (c : CandidateAttempt) (d : Decision)
      → decision_for dg decisions c ≡ ok d
      → lookup ⦃e = key_eq⦄ (decision_key dg c) decisions ≡ some d
  decision_for-eq-ok c d h =
      elim (Option-cases (lookup ⦃e = key_eq⦄ (decision_key dg c) decisions)) [
        | inl e ↦ absurd (cc (rw (e, found_or_missing) at h))
        | inr (x, e) ↦ ground arith
      ]

  IsCounted-of :
      (c : CandidateAttempt) (d : Decision)
      → decision_for dg decisions c ≡ ok d
      → is_accepted_unique d ≡ true
      → IsCounted c
  IsCounted-of c d h t = record {
    decision = d;
    decided = decision_for-eq-ok c d h;
    accepted = ground arith;
    unique = ground arith;
  }

  -- All that is kept counts, passes the test, and has whatever holds of all that was filtered.
  pub filter_counted-IsCounted :
      (P : CandidateAttempt → Type 0) (p : CandidateAttempt → Bool) (cs xs : List CandidateAttempt)
      → filter_counted dg decisions p cs ≡ ok xs
      → All P cs
      → All (λ c. P c × (p c ≡ true) × IsCounted c) xs
  unfolding filter_counted
  filter_counted-IsCounted P p [] [] h q = tt
  filter_counted-IsCounted P p [] (x ∷ xs) h q = cc
  filter_counted-IsCounted P p (c ∷ cs) xs h (q, qs) = elim (Bool-cases (p c)) [
    | inr t ↦ filter_counted-IsCounted P p cs xs (rw t at h) qs
    | inl t ↦
        let (d, e, h₁) = >>=-eq-ok (decision_for dg decisions c) _ (rw t at h) in
        let (ys, f, h₂) = >>=-eq-ok (filter_counted dg decisions p cs) _ h₁ in
        let ih = filter_counted-IsCounted P p cs ys f qs in
        let kept = λ (x : CandidateAttempt). P x × (p x ≡ true) × IsCounted x in
        elim (Bool-cases (is_accepted_unique d)) [
          | inl a ↦
              let same : c ∷ ys ≡ xs = ground arith in
              subst (All kept) same ((q, t, IsCounted-of c d e a), ih)
          | inr a ↦ let same : ys ≡ xs = ground arith in subst (All kept) same ih
        ]
  ]
