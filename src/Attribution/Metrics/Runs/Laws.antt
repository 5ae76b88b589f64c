-- ===== src/Attribution/Metrics/Runs/Laws.antt =====
-- What the runs of metrics come to: the bound of an activity, and that what privacy erased does not count.
use open_mmp.Common.{
  ℕ, ◌≤◌, ◌≡◌, refl, sym, ap, ◌∙◌, inl, inr, Bool, true, false, List, [], ◌∷◌, some, opt_eq, filter,
  is_some, Bool-cases, if◌then◌else◌, Outcome, ok, throw, ◌>>=◌, >>=-eq-ok, ℤ, pos,
}
use open_mmp.Attribution.Types.{CandidateAttempt, Digests}
use open_mmp.Attribution.Errors.{Error}
use open_mmp.Attribution.Decide.{Decision}
use open_mmp.Attribution.Results.{
  Decisions, LifecycleIndex, AttributionResult, filter_counted, decision_for, is_accepted_unique,
}
use open_mmp.Attribution.Metrics.Definitions.{MetricDefinition}
use open_mmp.Attribution.Metrics.Selection.{MetricEvaluation, known_lifecycle, revenue_events}
use open_mmp.Attribution.Metrics.Values.{
  Excluded, defined, scale_factor, eligible_installs, revenue_value, cohort_size, activity_value,
}
use open_mmp.Attribution.Metrics.Values.Laws.{activity_value-bounded}
use open_mmp.Attribution.Metrics.Runs.{MetricInput, Selected, is_calculation, metric_value}

-- Where fraud is not left out, the share of active installations in a cohort is at most one, in the units of the definition's scale.
pub metric_value-activity_bounded :
    (input : MetricInput) (attributions : List AttributionResult) (excluded : Excluded)
    (e : MetricEvaluation) (s : Selected) (d : MetricDefinition) {v : ℤ}
    → d.calculation ≡ some "active_installations_over_cohort"
    → d.fraud_net ≡ false
    → metric_value input attributions excluded e s d ≡ ok (defined v)
    → (n : ℕ) × (v ≡ pos n) × (n ≤ scale_factor d)
unfolding metric_value eligible_installs
metric_value-activity_bounded input attributions excluded e s d {v} c n h =
    let gross : eligible_installs d excluded s.installs ≡ s.installs = simp n refl in
    let (revenue, _, h1) =
      >>=-eq-ok
        (revenue_value d input.fx_policy (eligible_installs d excluded s.installs) (pos 0)
          (revenue_events s.seen))
        _ h in
    let a : is_calculation d "revenue_sum" ≡ false = ap (λ o. opt_eq o (some "revenue_sum")) c in
    let b : is_calculation d "revenue_over_cost" ≡ false =
      ap (λ o. opt_eq o (some "revenue_over_cost")) c in
    let t : is_calculation d "active_installations_over_cohort" ≡ true =
      ap (λ o. opt_eq o (some "active_installations_over_cohort")) c in
    let h2 : activity_value d s.installs (cohort_size (eligible_installs d excluded s.installs))
          s.seen
        ≡ ok (defined v) =
      rw (a, b, t) at h1 in
    activity_value-bounded d s.installs s.seen
      (ap (λ installs. activity_value d s.installs (cohort_size installs) s.seen) (sym gross) ∙ h2)

-- An attempt that privacy erased, as far as an evaluation knows.
abbrev pub is_erased : LifecycleIndex → MetricEvaluation → CandidateAttempt → Bool
is_erased lifecycle e a = is_some (known_lifecycle lifecycle e a)

pub ok-eq {ℓ} : {A : Type ℓ} {a b : A} → ◌≡◌ {A = Outcome Error A} (ok a) (ok b) → a ≡ b
ok-eq {a} h = ap (λ o. elim o [ ok x ↦ x | throw _ ↦ a ]) h

pub filter_swap :
    (p q : CandidateAttempt → Bool) (xs : List CandidateAttempt)
    → filter p (filter q xs) ≡ filter q (filter p xs)
filter_swap p q [] = refl
filter_swap p q (x ∷ xs) = elim (Bool-cases (p x)) [
  | inl t ↦ elim (Bool-cases (q x)) [
    | inl u ↦ rw (t, u, t) (ap (λ r. x ∷ r) (filter_swap p q xs))
    | inr u ↦ rw (t, u) (filter_swap p q xs)
  ]
  | inr t ↦ elim (Bool-cases (q x)) [
    | inl u ↦ rw (t, u, t) (filter_swap p q xs)
    | inr u ↦ rw (t, u) (filter_swap p q xs)
  ]
]

pub filter_twice :
    (p : CandidateAttempt → Bool) (xs : List CandidateAttempt)
    → filter p (filter p xs) ≡ filter p xs
filter_twice p [] = refl
filter_twice p (x ∷ xs) = elim (Bool-cases (p x)) [
  | inl t ↦ rw (t, t) (ap (λ r. x ∷ r) (filter_twice p xs))
  | inr t ↦ rw t (filter_twice p xs)
]

abbrev kept :
    CandidateAttempt
    → Outcome Error Decision
    → Outcome Error (List CandidateAttempt)
    → Outcome Error (List CandidateAttempt)
kept x o rest = do d ← o; xs ← rest; ok (if is_accepted_unique d then x ∷ xs else xs)

-- One round of the filter, with the rest as it comes out.
kept-filter :
    (x : CandidateAttempt) (q : CandidateAttempt → Bool) (o : Outcome Error Decision)
    (rest next : Outcome Error (List CandidateAttempt)) {ys : List CandidateAttempt}
    → ((zs : List CandidateAttempt) → rest ≡ ok zs → next ≡ ok (filter q zs))
    → kept x o rest ≡ ok ys
    → (if q x then kept x o next else next) ≡ ok (filter q ys)
kept-filter x q (throw e) rest next f h = cc
kept-filter x q (ok d) (throw e) next f h = cc
kept-filter x q (ok d) (ok zs) next {ys} f h =
    let after = f zs refl in
    let same = ap (filter q) (ok-eq h) in
    elim (Bool-cases (q x)) [
      | inl t ↦ elim (Bool-cases (is_accepted_unique d)) [
        | inl u ↦ rw (t, after, u) (ap ok (rw (u, t) at same))
        | inr u ↦ rw (t, after, u) (ap ok (rw u at same))
      ]
      | inr t ↦ elim (Bool-cases (is_accepted_unique d)) [
        | inl u ↦ rw (t, after) (ap ok (rw (u, t) at same))
        | inr u ↦ rw (t, after) (ap ok (rw u at same))
      ]
    ]

-- Those that count of the attempts that a test leaves are those that it leaves of the ones that count.
pub filter_counted-filter :
    (dg : Digests) (decisions : Decisions) (q : CandidateAttempt → Bool)
    (xs : List CandidateAttempt) {ys : List CandidateAttempt}
    → filter_counted dg decisions (λ a. true) xs ≡ ok ys
    → filter_counted dg decisions (λ a. true) (filter q xs) ≡ ok (filter q ys)
unfolding filter_counted
filter_counted-filter dg decisions q [] h = ap ok (ap (filter q) (ok-eq h))
filter_counted-filter dg decisions q (x ∷ xs) h =
    let step =
      kept-filter x q (decision_for dg decisions x) (filter_counted dg decisions (λ a. true) xs)
        (filter_counted dg decisions (λ a. true) (filter q xs))
        (λ zs e. filter_counted-filter dg decisions q xs e) h in
    elim (Bool-cases (q x)) [ inl t ↦ rw t (rw t at step) | inr t ↦ rw t (rw t at step) ]
