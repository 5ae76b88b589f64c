-- ===== src/Attribution/Decide/Scope.antt =====
-- Duplicates: the attempts of one logical scope, and of one record id.
use mathlib.Core.List.{append-nil}
use open_mmp.Common.{
  ◌<◌, ◌≡◌, ◌≢◌, inl, inr, refl, sym, ap, ◌∙◌, List, [], ◌∷◌, ◌++◌, none, some, String, str_eq, ltb,
  ok, arith, Bool-cases, Option-cases, filter, filter-append, first, length,
}
use open_mmp.Attribution.Types.{CandidateAttempt, Digests}
use open_mmp.Attribution.Candidates.{CandidateProvider, fixture_provider, scope_key, key_eq}
use open_mmp.Attribution.Decide.{
  DuplicateResolution, unique, IngestionStatus, accepted, rejected, Decision, decision_key,
  duplicate_resolution, decide, canonical_record_id,
}
use open_mmp.Attribution.Decide.Laws.{decide-Reached, decide-accepted_iff}

not_accepted : (s : IngestionStatus) → s ≢ accepted → s ≡ rejected
not_accepted accepted h = absurd (h refl)
not_accepted rejected h = refl

first-append : (xs ys : List CandidateAttempt) → xs ≢ [] → first (xs ++ ys) ≡ first xs
first-append [] ys h = absurd (h refl)
first-append (x ∷ xs) ys h = refl

module _ (dg : Digests) where
  -- A unique attempt is the first of its scope, up to the decision key.
  unique-first :
      (a : CandidateAttempt) (c : CandidateProvider)
      → duplicate_resolution dg a c ≡ ok unique
      → (f : CandidateAttempt) × (first (c.by_logical_scope a) ≡ some f)
        × (decision_key dg f ≡ decision_key dg a)
  unfolding duplicate_resolution
  unique-first a c h = elim (Bool-cases (ltb 1 (length (c.by_record_id a.event.record_id)))) [
    | inl t ↦ absurd (cc (rw t at h))
    | inr t ↦ elim (Option-cases (first (c.by_logical_scope a))) [
      | inl e ↦ absurd (cc (rw (t, e) at h))
      | inr (f, e) ↦ elim (Bool-cases (key_eq.beq (decision_key dg f) (decision_key dg a))) [
        | inl k ↦ (f, e, (key_eq.beq_iff _ _).0 k)
        | inr k ↦ absurd (ground (arith, rw (t, e) at h))
      ]
    ]
  ]

  scope_congr :
      (ordered : List CandidateAttempt) (a b : CandidateAttempt)
      → scope_key a ≡ scope_key b
      → (fixture_provider ordered).by_logical_scope a
        ≡ (fixture_provider ordered).by_logical_scope b
  scope_congr ordered a b e = ap (λ k. filter (λ c. key_eq.beq (scope_key c) k) ordered) e

  -- Two attempts of one logical scope (tenant, app, producer and event id) that are both resolved
  -- as unique are the same delivery of the same record: at most one record of a scope counts.
  pub unique_in_scope :
      (ordered : List CandidateAttempt) (a b : CandidateAttempt) (d d' : Decision)
      → decide dg a (fixture_provider ordered) ≡ ok d
      → decide dg b (fixture_provider ordered) ≡ ok d'
      → scope_key a ≡ scope_key b
      → d.duplicate_resolution ≡ unique
      → d'.duplicate_resolution ≡ unique
      → decision_key dg a ≡ decision_key dg b
  unique_in_scope ordered a b d d' h h' e u u' =
      let c = fixture_provider ordered in
      let (f, first_a, key_a) = unique-first a c (rw u at (decide-Reached dg a c d h).duplicate) in
      let (g, first_b, key_b) =
        unique-first b c (rw u' at (decide-Reached dg b c d' h').duplicate) in
      let same : some f ≡ some g = sym first_a ∙ ap first (scope_congr ordered a b e) ∙ first_b in
      let f-eq-g : f ≡ g = cc in sym key_a ∙ ap (decision_key dg) f-eq-g ∙ key_b

  -- The attempts of the input that carry a record id.
  abbrev pub carrying : String → List CandidateAttempt → List CandidateAttempt
  carrying record_id = filter (λ c. str_eq c.event.record_id record_id)

  -- Where a record id stands on more than one attempt of the input, none of them is accepted: each
  -- decision that is reached says so and names no canonical record.
  pub collision_rejects :
      (ordered : List CandidateAttempt) (a : CandidateAttempt) (d : Decision)
      → decide dg a (fixture_provider ordered) ≡ ok d
      → 1 < length (carrying a.event.record_id ordered)
      → (d.duplicate_resolution ≡ DuplicateResolution.record_id_collision)
        × (d.ingestion_status ≡ rejected)
        × (d.canonical_record_id ≡ none)
  unfolding duplicate_resolution
  collision_rejects ordered a d h many =
      let c = fixture_provider ordered in
      let reached = decide-Reached dg a c d h in
      let collides : d.duplicate_resolution ≡ DuplicateResolution.record_id_collision =
        ground (arith, reached.duplicate) in
      let status : d.ingestion_status ≢ accepted =
        λ e. ((decide-accepted_iff dg a c d h).0 e).no_collision collides in
      let canonical = ap (λ (x : Decision). x.canonical_record_id) reached.result in
      (
        collides,
        not_accepted d.ingestion_status status,
        canonical ∙ ap (λ k. canonical_record_id a k (first (c.by_logical_scope a))) collides,
      )

  -- A decision depends on the provider by two of its answers.
  decide-congr :
      (a : CandidateAttempt) (c c' : CandidateProvider)
      → c.by_record_id a.event.record_id ≡ c'.by_record_id a.event.record_id
      → first (c.by_logical_scope a) ≡ first (c'.by_logical_scope a)
      → decide dg a c ≡ decide dg a c'
  unfolding decide duplicate_resolution
  decide-congr a c c' e f = simp (e, f)

  -- Attempts that come later in the order, and carry another record id, change nothing of a
  -- decision on an attempt that stands in the input before them.
  pub decide-append :
      (ordered later : List CandidateAttempt) (a : CandidateAttempt)
      → filter (λ c. key_eq.beq (scope_key c) (scope_key a)) ordered ≢ []
      → carrying a.event.record_id later ≡ []
      → decide dg a (fixture_provider (ordered ++ later)) ≡ decide dg a (fixture_provider ordered)
  decide-append ordered later a there fresh =
      decide-congr a (fixture_provider (ordered ++ later)) (fixture_provider ordered)
        (filter-append _ ordered later
          ∙ ap (λ xs. carrying a.event.record_id ordered ++ xs) fresh
          ∙ append-nil _)
        (ap first (filter-append _ ordered later) ∙ first-append _ _ there)
