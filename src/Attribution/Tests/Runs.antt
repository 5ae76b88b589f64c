-- ===== src/Attribution/Tests/Runs.antt =====
-- Runs of metrics over an install, its revenue and its sessions.
use open_mmp.Common.{
  ℕ, ◌≤◌, ◌≡◌, refl, true, false, none, some, not, List, [], ◌∷◌, map, filter, ok, pos,
}
use open_mmp.Common.Unique.{unique}
use open_mmp.Common.Sorting.{sort}
use open_mmp.Instant.{to_instant}
use open_mmp.Money.{FxPolicy, round_half_even, round_magnitude, convert_money}
use open_mmp.Attribution.Types.{CandidateAttempt}
use open_mmp.Attribution.Errors.{time}
use open_mmp.Attribution.Order.{units, compare_text}
use open_mmp.Attribution.Consent.{decision_of, consent_not_required}
use open_mmp.Attribution.Decide.{Decision, DuplicateResolution, decided, decision_key}
use open_mmp.Attribution.Candidates.{fixture_provider}
use open_mmp.Attribution.Results.{
  Lifecycle, Decisions, LifecycleIndex, attempt_evidence_key, filter_counted,
}
use open_mmp.Attribution.Metrics.Definitions.{MetricDefinition, elapsed, utc, revenue_definition}
use open_mmp.Attribution.Metrics.Cohorts.{eligible_revenue, matches_grouping}
use open_mmp.Attribution.Metrics.Selection.{
  MetricEvaluation, included, visible, grouped_installs, current_costs, last_of_keys,
  is_grouped_cost,
}
use open_mmp.Attribution.Metrics.Values.{
  defined, is_excluded, scale_factor, eligible_installs, revenue_value, cohort_size, active_ids,
  activity_value,
}
use open_mmp.Attribution.Metrics.Values.Laws.{revenue_value-net}
use open_mmp.Attribution.Metrics.Runs.{
  MetricRun, MetricDigests, MetricInput, Selected, attribution_statuses, check_grouping,
  metric_value, checked_value, metric_run, runs_of_names, runs_of,
}
use open_mmp.Attribution.Metrics.Runs.Laws.{metric_value-activity_bounded}
use open_mmp.Attribution.Metrics.Runs.Privacy.{unerased, values, runs_of-unerased}
use open_mmp.Attribution.Tests.Samples.{digests, empty, attempt, install}

abbrev other : CandidateAttempt
other = attempt "r3" "install" (record empty { installation_id = some "i2" })

abbrev session : CandidateAttempt
session = attempt "r4" "session_start" (record empty { installation_id = some "i2" })

abbrev first_session : CandidateAttempt
first_session = attempt "r6" "session_start" (record empty { installation_id = some "i1" })

abbrev paid : CandidateAttempt
paid = attempt "r5" "ad_revenue" (record empty {
  installation_id = some "i1";
  installation_level = true;
  amount = record { currency = "USD"; amount_unscaled = pos 250; amount_scale = 2 };
})

abbrev fx : FxPolicy
fx = record {
  target_scale = 6;
  rates = record { currency = "USD"; rate_unscaled = pos 1; rate_scale = 0 } ∷ [];
}

abbrev revenue_sum : MetricDefinition
revenue_sum = revenue_definition "revenue" utc elapsed

abbrev activity : MetricDefinition
activity = record revenue_sum {
  metric_name = "activity";
  calculation = some "active_installations_over_cohort";
}

abbrev input : MetricInput
input = record {
  metric_evaluations = [];
  fx_policy = fx;
  target_currency = "USD";
  definitions = revenue_sum ∷ activity ∷ [];
  cost_records = [];
}

abbrev evaluation : MetricEvaluation
evaluation = record {
  input_received_at_watermark = "2026-08-21T00:00:00.000Z";
  after_privacy = true;
  grouping = none;
  metric_names = some ("revenue" ∷ []);
  metric_run_id_prefix = "run";
  supersedes_metric_run_id_prefix = none;
}

abbrev selected : Selected
selected = record {
  seen = install ∷ other ∷ session ∷ first_session ∷ paid ∷ [];
  installs = install ∷ other ∷ [];
  costs = [];
}

-- Where fraud is left out, the session of the installation that it excludes still counts, so that two of
-- one are active.
activity_tests :
    (metric_value input [] [] evaluation selected activity ≡ ok (defined (pos 1000000)))
    × (metric_value input []
          (some "i2" ∷ [])
          evaluation
          selected
          (record activity { fraud_net = true })
        ≡ ok (defined (pos 2000000)))
unfolding metric_value eligible_installs revenue_value cohort_size unique active_ids activity_value
    eligible_revenue time to_instant convert_money round_half_even round_magnitude
activity_tests = (refl, refl)

metric_value-activity_bounded_example :
    (n : ℕ) × (pos 1000000 ≡ pos n) × (n ≤ scale_factor activity)
unfolding metric_value eligible_installs revenue_value cohort_size unique active_ids activity_value
    eligible_revenue time to_instant convert_money round_half_even round_magnitude
metric_value-activity_bounded_example =
    metric_value-activity_bounded input [] [] evaluation selected activity refl refl refl

abbrev net : MetricDefinition
net = record revenue_sum { fraud_net = true }

revenue_value-net_example :
    revenue_value net fx
      (eligible_installs net (some "i1" ∷ []) (install ∷ other ∷ []))
      (pos 0)
      (paid ∷ [])
    ≡ revenue_value net fx
        (eligible_installs net (some "i1" ∷ []) (install ∷ other ∷ []))
        (pos 0)
        (filter (λ a. not (is_excluded (some "i1" ∷ []) a)) (paid ∷ []))
revenue_value-net_example =
    revenue_value-net net fx (some "i1" ∷ []) (install ∷ other ∷ []) (pos 0) (paid ∷ []) refl

abbrev unique_decision : CandidateAttempt → Decision
unique_decision a =
    decided a (fixture_provider []) DuplicateResolution.unique
      (decision_of a true consent_not_required) none false

abbrev decisions : Decisions
decisions = map (λ a. (decision_key digests a, unique_decision a)) (install ∷ other ∷ paid ∷ [])

-- The other install is erased.
abbrev erased : LifecycleIndex
erased = (attempt_evidence_key other, Lifecycle.purged) ∷ []

abbrev metric_digests : MetricDigests
metric_digests = record {
  rows_digest = λ rows. "rows";
  evidence_digest = λ r. r.ref;
  cost_digest = λ c. c.cost_record_id;
  run_digest = λ r. r.metric_run_id;
}

abbrev all : List CandidateAttempt
all = install ∷ other ∷ paid ∷ []

abbrev expected : MetricRun
expected =
    metric_run digests metric_digests erased input [] [] evaluation all
      (record { seen = install ∷ paid ∷ []; installs = install ∷ []; costs = [] }) "revenue"
      (defined (pos 2500000))

runs_of-unerased_example :
    (others : List MetricRun) × (runs_of digests metric_digests erased input [] [] decisions
        (unerased erased evaluation all)
        evaluation
      ≡ ok others)
    × (values others ≡ defined (pos 2500000) ∷ [])
unfolding runs_of included filter_counted visible grouped_installs matches_grouping current_costs
    is_grouped_cost last_of_keys sort attribution_statuses runs_of_names checked_value
    check_grouping metric_value eligible_installs revenue_value cohort_size unique eligible_revenue
    time to_instant convert_money round_half_even round_magnitude compare_text units metric_run
runs_of-unerased_example =
    runs_of-unerased digests metric_digests erased input [] [] decisions all evaluation
      {runs = expected ∷ []} refl
