-- ===== src/Attribution/Metrics/Runs/Privacy.antt =====
-- What privacy erased does not count: the values of an evaluation are those without it.
use open_mmp.Common.{
  ◌≡◌, refl, sym, ap, ◌∙◌, true, not, List, [], ◌∷◌, map, String, filter, or_else, length, ◌==◌,
  Outcome, ok, throw, >>=-eq-ok,
}
use open_mmp.Common.Sorting.{at_most}
use open_mmp.Attribution.Types.{CandidateAttempt, Digests}
use open_mmp.Attribution.Errors.{Error}
use open_mmp.Attribution.Order.{compare_text}
use open_mmp.Attribution.Results.{Decisions, LifecycleIndex, AttributionResult, filter_counted}
use open_mmp.Attribution.Metrics.Selection.{
  MetricEvaluation, included, visible, grouped_installs, current_costs,
}
use open_mmp.Attribution.Metrics.Values.{
  Excluded, MetricValue, RunError, of_attribution, not_one_rate,
}
use open_mmp.Attribution.Metrics.Counts.{require}
use open_mmp.Attribution.Metrics.Runs.{
  MetricRun, MetricDigests, MetricInput, Selected, attribution_statuses, checked_value,
  default_names, metric_run, runs_of_names, runs_of,
}
use open_mmp.Attribution.Metrics.Runs.Laws.{
  ok-eq, is_erased, filter_swap, filter_twice, filter_counted-filter,
}

abbrev pub unerased :
    LifecycleIndex → MetricEvaluation → List CandidateAttempt → List CandidateAttempt
unerased lifecycle e attempts = filter (λ a. not (is_erased lifecycle e a)) attempts

included-unerased :
    (dg : Digests) (decisions : Decisions) (lifecycle : LifecycleIndex)
    (all : List CandidateAttempt) (e : MetricEvaluation) {chosen : List CandidateAttempt}
    → included dg decisions all e ≡ ok chosen
    → included dg decisions (unerased lifecycle e all) e ≡ ok (unerased lifecycle e chosen)
unfolding included
included-unerased dg decisions lifecycle all e h =
    let received = λ (a : CandidateAttempt).
      at_most (compare_text a.event.received_at e.input_received_at_watermark) in
    let left = λ (a : CandidateAttempt). not (is_erased lifecycle e a) in
    let (counted, c, h1) = >>=-eq-ok (filter_counted dg decisions (λ a. true) all) _ h in
    let c' = filter_counted-filter dg decisions left all c in
    rw c' (ap ok (filter_swap received left counted ∙ ap (filter left) (ok-eq h1)))

visible-unerased :
    (lifecycle : LifecycleIndex) (e : MetricEvaluation) (chosen : List CandidateAttempt)
    → visible lifecycle e (unerased lifecycle e chosen) ≡ visible lifecycle e chosen
unfolding visible
visible-unerased lifecycle e chosen = filter_twice (λ a. not (is_erased lifecycle e a)) chosen

abbrev pub values : List MetricRun → List MetricValue
values runs = map (λ r. r.value) runs

run-eq : {a b : List MetricRun} → ◌≡◌ {A = Outcome RunError (List MetricRun)} (ok a) (ok b) → a ≡ b
run-eq {a} h = ap (λ o. elim o [ ok x ↦ x | throw _ ↦ a ]) h

of_attribution-ok :
    (o : Outcome Error (List CandidateAttempt)) {xs : List CandidateAttempt}
    → of_attribution o ≡ ok xs
    → o ≡ ok xs
of_attribution-ok (ok x) {xs} h = ap ok (ap (λ o. elim o [ ok y ↦ y | throw _ ↦ xs ]) h)
of_attribution-ok (throw e) h = cc

module _ (dg : Digests) (md : MetricDigests) (lifecycle : LifecycleIndex) (input : MetricInput)
    (attributions : List AttributionResult) (excluded : Excluded) where
  metric_run-value :
      (e : MetricEvaluation) (chosen : List CandidateAttempt) (s : Selected) (name : String)
      (value : MetricValue)
      → (metric_run dg md lifecycle input attributions excluded e chosen s name value).value ≡ value
  unfolding metric_run
  metric_run-value e chosen s name value = refl

  runs_of_names-values :
      (e : MetricEvaluation) (chosen fewer : List CandidateAttempt) (s : Selected)
      (names : List String) {runs : List MetricRun}
      → runs_of_names dg md lifecycle input attributions excluded e chosen s names ≡ ok runs
      → (others : List MetricRun) × (runs_of_names dg md lifecycle input attributions excluded e
            fewer s names
          ≡ ok others)
        × (values others ≡ values runs)
  unfolding runs_of_names
  runs_of_names-values e chosen fewer s [] h = ([], refl, ap values (run-eq h))
  runs_of_names-values e chosen fewer s (name ∷ names) h =
      let ((d, value), checked, h1) =
        >>=-eq-ok (checked_value input attributions excluded e s name) _ h in
      let (rest, went, h2) =
        >>=-eq-ok (runs_of_names dg md lifecycle input attributions excluded e chosen s names) _
          h1 in
      let (others, ran, same) = runs_of_names-values e chosen fewer s names went in
      let mine = metric_run-value e fewer s name value in
      let theirs = metric_run-value e chosen s name value in
      (
        metric_run dg md lifecycle input attributions excluded e fewer s name value ∷ others,
        rw (checked, ran) refl,
        (λ i. (mine ∙ sym theirs) i ∷ same i) ∙ ap values (run-eq h2),
      )

  abbrev selected : MetricEvaluation → List CandidateAttempt → List CandidateAttempt → Selected
  selected e seen installs = record {
    seen = seen;
    installs = installs;
    costs = current_costs e installs input.cost_records;
  }

  runs_of-eq :
      (decisions : Decisions) (all : List CandidateAttempt) (e : MetricEvaluation)
      (chosen installs : List CandidateAttempt) {runs : List MetricRun}
      → included dg decisions all e ≡ ok chosen
      → of_attribution (
          grouped_installs
            (attribution_statuses [] attributions)
            e.grouping
            (visible lifecycle e chosen))
        ≡ ok installs
      → require (length input.fx_policy.rates == 1) not_one_rate ≡ ok tt
      → runs_of_names dg md lifecycle input attributions excluded e chosen
          (selected e (visible lifecycle e chosen) installs)
          (or_else e.metric_names default_names)
        ≡ ok runs
      → runs_of dg md lifecycle input attributions excluded decisions all e ≡ ok runs
  unfolding runs_of
  runs_of-eq decisions all e chosen installs a b c h = rw (a, b, c) h

  -- An evaluation that has its runs has them without the attempts that privacy erased, as far as it knows, and with the
  -- same values.
  pub runs_of-unerased :
      (decisions : Decisions) (all : List CandidateAttempt) (e : MetricEvaluation)
      {runs : List MetricRun}
      → runs_of dg md lifecycle input attributions excluded decisions all e ≡ ok runs
      → (others : List MetricRun) × (runs_of dg md lifecycle input attributions excluded decisions
            (unerased lifecycle e all)
            e
          ≡ ok others)
        × (values others ≡ values runs)
  unfolding runs_of
  runs_of-unerased decisions all e h =
      let (chosen, chose, h1) = >>=-eq-ok (of_attribution (included dg decisions all e)) _ h in
      let seen = visible lifecycle e chosen in
      let (installs, found, h2) =
        >>=-eq-ok
          (of_attribution (grouped_installs (attribution_statuses [] attributions) e.grouping seen))
          _ h1 in
      let (u, one_rate, h3) =
        >>=-eq-ok (require (length input.fx_policy.rates == 1) not_one_rate) _ h2 in
      let names = or_else e.metric_names default_names in
      let left = unerased lifecycle e chosen in
      let (others, ran, same) =
        runs_of_names-values e chosen left (selected e seen installs) names h3 in
      let fewer =
        included-unerased dg decisions lifecycle all e
          (of_attribution-ok (included dg decisions all e) chose) in
      let unseen = visible-unerased lifecycle e chosen in
      (
        others,
        runs_of-eq decisions (unerased lifecycle e all) e left installs fewer
            (ap
                (λ v.
                  of_attribution
                    (grouped_installs (attribution_statuses [] attributions) e.grouping v))
                unseen
              ∙ found)
            one_rate
            (ap
                (λ v.
                  runs_of_names dg md lifecycle input attributions excluded e left
                    (selected e v installs) names)
                unseen
              ∙ ran),
        same,
      )
