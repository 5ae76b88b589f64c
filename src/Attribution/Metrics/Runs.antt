-- ===== src/Attribution/Metrics/Runs.antt =====
-- `metricRuns` of packages/attribution-core/src/evaluator.ts: the run of each metric of each evaluation. The fields of a run that are copies
-- of the definition's, of the evaluation's and of the policy's are left out.
pub mod Laws
pub mod Privacy
use Prim.Native.String
use open_mmp.Common.{
  ℕ, Bool, true, false, not, ◌||◌, List, [], ◌∷◌, ◌++◌, map, Option, none, some, String, str_eq,
  opt_eq, filter, insert, is_some, or_else, length, ◌==◌, if◌then◌else◌, Outcome, ok, throw, ◌>>=◌,
  ◌>>◌, ℤ, pos,
}
use open_mmp.Money.{FxPolicy}
use open_mmp.Attribution.Types.{CandidateAttempt, Digests}
use open_mmp.Attribution.Order.{sort_by_key, sort_candidate_attempts}
use open_mmp.Attribution.Candidates.{composite_key, key_eq}
use open_mmp.Attribution.Results.{
  Lifecycle, available, redacted, purged, EvidenceRef, SubjectScope, AttributionResult, Decisions,
  LifecycleIndex,
}
use open_mmp.Attribution.Metrics.Definitions.{MetricDefinition, CostRecord, contains}
use open_mmp.Attribution.Metrics.Cohorts.{MetricGrouping, Statuses}
use open_mmp.Attribution.Metrics.Selection.{
  MetricEvaluation, included, known_lifecycle, visible, grouped_installs, revenue_events,
  Reproducibility, reproducibility, current_costs, is_empty,
}
use open_mmp.Attribution.Metrics.Values.{
  RunError, not_one_rate, unknown_metric, unsupported_calculation, metric_date_reserved,
  unsupported_grouping, of_attribution, MetricValue, defined, Excluded, eligible_installs,
  revenue_value, cohort_size, cost_sum, activity_value, return_value, average_value,
}
use open_mmp.Attribution.Metrics.Counts.{require, event_count}

pub record MetricRun : Type 0 where
  pub metric_run_id : String
  pub metric_name : String
  pub input_snapshot_id : String
  pub input_ledger_position : String
  pub reproducibility_status : Reproducibility
  pub value : MetricValue
  pub grouping : Option MetricGrouping
  pub evidence_refs : List EvidenceRef
  pub supersedes_metric_run_id : Option String

pub record MetricDigests : Type 0 where
  pub rows_digest : List (List String) → String
  pub evidence_digest : EvidenceRef → String
  pub cost_digest : CostRecord → String
  pub run_digest : MetricRun → String

pub record MetricInput : Type 0 where
  pub metric_evaluations : List MetricEvaluation
  pub fx_policy : FxPolicy
  pub target_currency : String  -- fx_policy.target_currency
  pub definitions : List MetricDefinition  -- metricDefinitions(input)
  pub cost_records : List CostRecord  -- costRecords(input)

-- `definitionsByName.get`: the last of a name.
abbrev pub definition_named : String → List MetricDefinition → Option MetricDefinition
definition_named name [] = none
definition_named name (d ∷ ds) =
    let later = definition_named name ds in
    if is_some later then later else if str_eq d.metric_name name then some d else none

abbrev pub has_subject : SubjectScope → Bool
has_subject SubjectScope.installation_level = true
has_subject SubjectScope.engagement_level = true
has_subject SubjectScope.aggregate = false

-- `attributionStatuses`, from the map so far.
unfoldable pub attribution_statuses : Statuses → List AttributionResult → Statuses
attribution_statuses found [] = found
attribution_statuses found (r ∷ rs) =
    attribution_statuses
      (if has_subject r.subject_scope
        then insert ⦃e = key_eq⦄
            (composite_key (some r.tenant_id ∷ some r.app_id ∷ r.subject_ref ∷ [])) r.status found
        else found)
      rs

abbrev pub lifecycle_text : Lifecycle → String
lifecycle_text available = "available"
lifecycle_text redacted = "redacted"
lifecycle_text purged = "purged"

-- The dimensions of a grouping, in the order of their declaration.
abbrev pub keys_if {ℓ} : {A : Type ℓ} → String → Option A → List String
keys_if key none = []
keys_if key (some a) = key ∷ []

abbrev pub grouping_keys : MetricGrouping → List String
grouping_keys g =
    keys_if "campaign_id" g.campaign_id
    ++ (keys_if "network" g.network
        ++ (keys_if "country" g.country
            ++ (keys_if "cohort_date" g.cohort_date
                ++ (keys_if "metric_date" g.metric_date
                    ++ (keys_if "attribution_status" g.attribution_status
                        ++ keys_if "apple_conversion_bucket" g.apple_conversion_bucket)))))

unfoldable pub check_grouping :
    MetricDefinition → Option MetricGrouping → Outcome RunError (Unit {0})
check_grouping d none = ok tt
check_grouping d (some g) =
    let unsupported = filter (λ key. not (contains key d.grouping_dimensions)) (grouping_keys g) in
    require (not d.dimensions_given || is_empty unsupported)
      (unsupported_grouping d.metric_name unsupported)

-- What an evaluation has selected.
pub record Selected : Type 0 where
  pub seen : List CandidateAttempt
  pub installs : List CandidateAttempt
  pub costs : List CostRecord

abbrev pub has_metric_date : Option MetricGrouping → Bool
has_metric_date none = false
has_metric_date (some g) = is_some g.metric_date

abbrev pub is_calculation : MetricDefinition → String → Bool
is_calculation d name = opt_eq d.calculation (some name)

abbrev pub found_definition : String → Option MetricDefinition → Outcome RunError MetricDefinition
found_definition name none = throw (unknown_metric name)
found_definition name (some d) = ok d

abbrev pub last_position : List CandidateAttempt → String
last_position [] = "empty"
last_position (a ∷ []) = String.◌++◌ a.event.received_at (String.◌++◌ "|" a.event.record_id)
last_position (a ∷ b ∷ attempts) = last_position (b ∷ attempts)

module _ (input : MetricInput) (attributions : List AttributionResult) (excluded : Excluded) where
  -- The chain of calculations.
  unfoldable pub metric_value :
      MetricEvaluation → Selected → MetricDefinition → Outcome RunError MetricValue
  metric_value e s d = do
    let eligible = eligible_installs d excluded s.installs
    revenue ← revenue_value d input.fx_policy eligible (pos 0) (revenue_events s.seen)
    let cohort = cohort_size eligible
    if is_calculation d "revenue_sum"
        then ok (defined revenue)
        else if is_calculation d "revenue_over_cost"
        then (do
          cost ← cost_sum input.target_currency input.fx_policy.target_scale (pos 0) s.costs
          return_value d revenue cost)
        else if is_calculation d "active_installations_over_cohort"
        then activity_value d s.installs cohort s.seen
        else if is_calculation d "revenue_over_cohort"
        then average_value revenue cohort
        else if is_calculation d "cohort_size"
        then ok (defined (pos cohort))
        else if is_calculation d "event_count"
        then (do
          n ←
              event_count attributions (attribution_statuses [] attributions) excluded d e.grouping
                s.seen
          ok (defined (pos n)))
        else throw (unsupported_calculation (or_else d.calculation ""))

  -- The part of the inner loop that decides the value of a metric.
  unfoldable pub checked_value :
      MetricEvaluation → Selected → String → Outcome RunError (MetricDefinition × MetricValue)
  checked_value e s name = do
    d ← found_definition name (definition_named name input.definitions)
    check_grouping d e.grouping
    value ← metric_value e s d
    require (is_calculation d "event_count" || not (has_metric_date e.grouping))
        (metric_date_reserved name)
    ok (d, value)

abbrev pub default_names : List String
default_names =
    "d0_install_to_24h_ad_revenue_usd" ∷ "d0_utc_install_calendar_ad_revenue_usd"
    ∷ "d0_jst_install_calendar_ad_revenue_usd" ∷ []

abbrev pub superseded_id : String → Option String → Option String
superseded_id name none = none
superseded_id name (some prefix) =
    if str_eq prefix "" then none else some (String.◌++◌ prefix (String.◌++◌ ":" name))

module _ (dg : Digests) (md : MetricDigests) (lifecycle : LifecycleIndex) (input : MetricInput)
    (attributions : List AttributionResult) (excluded : Excluded) where
  abbrev pub record_rows : MetricEvaluation → List CandidateAttempt → List (List String)
  record_rows e sorted =
      map
        (λ a.
          a.event.received_at
          ∷ a.event.record_id
          ∷ lifecycle_text (or_else (known_lifecycle lifecycle e a) available)
          ∷ a.server.policy_digest
          ∷ [])
        sorted

  abbrev pub cost_rows : List CostRecord → List (List String)
  unfolding sort_by_key
  cost_rows costs =
      map
        (λ c.
          "cost" ∷ c.as_of ∷ c.cost_record_id ∷ c.report_snapshot_digest ∷ c.dimension_digest ∷ [])
        (sort_by_key md.cost_digest costs (λ c. c.as_of ∷ c.cost_record_id ∷ []))

  abbrev pub run_evidence :
      MetricEvaluation → List CandidateAttempt → List CostRecord → List EvidenceRef
  unfolding sort_by_key
  run_evidence e sorted costs =
      sort_by_key md.evidence_digest
        (map
            (λ a. record {
              tenant_id = a.server.tenant_id;
              app_id = a.server.app_id;
              ref = a.event.record_id;
              lifecycle_status = or_else (known_lifecycle lifecycle e a) available;
            })
            sorted
          ++ map
              (λ c. record {
                tenant_id = c.tenant_id;
                app_id = c.app_id;
                ref = c.cost_record_id;
                lifecycle_status = available;
              })
              costs)
        (λ r. r.ref ∷ r.tenant_id ∷ r.app_id ∷ [])

  -- What `output.push` is given.
  unfoldable pub metric_run :
      MetricEvaluation → List CandidateAttempt → Selected → String → MetricValue → MetricRun
  unfolding sort_by_key sort_candidate_attempts
  metric_run e chosen s name value =
      let sorted = sort_candidate_attempts dg chosen in
      record {
        metric_run_id = String.◌++◌ e.metric_run_id_prefix (String.◌++◌ ":" name);
        metric_name = name;
        input_snapshot_id = md.rows_digest (record_rows e sorted ++ cost_rows s.costs);
        input_ledger_position = last_position sorted;
        reproducibility_status = reproducibility lifecycle e chosen;
        value = value;
        grouping = e.grouping;
        evidence_refs = run_evidence e sorted s.costs;
        supersedes_metric_run_id = superseded_id name e.supersedes_metric_run_id_prefix;
      }

  -- The inner loop.
  unfoldable pub runs_of_names :
      MetricEvaluation
      → List CandidateAttempt
      → Selected
      → List String
      → Outcome RunError (List MetricRun)
  runs_of_names e chosen s [] = ok []
  runs_of_names e chosen s (name ∷ names) = do
    (d, value) ← checked_value input attributions excluded e s name
    rest ← runs_of_names e chosen s names
    ok (metric_run e chosen s name value ∷ rest)

  module _ (decisions : Decisions) (all : List CandidateAttempt) where
    unfoldable pub runs_of : MetricEvaluation → Outcome RunError (List MetricRun)
    runs_of e = do
      chosen ← of_attribution (included dg decisions all e)
      let seen = visible lifecycle e chosen
      installs ←
          of_attribution (grouped_installs (attribution_statuses [] attributions) e.grouping seen)
      let costs = current_costs e installs input.cost_records
      require (length input.fx_policy.rates == 1) not_one_rate
      runs_of_names e chosen (record { seen = seen; installs = installs; costs = costs })
          (or_else e.metric_names default_names)

    -- The outer loop.
    unfoldable pub runs_of_each : List MetricEvaluation → Outcome RunError (List MetricRun)
    runs_of_each [] = ok []
    runs_of_each (e ∷ evaluations) = do
      runs ← runs_of e
      rest ← runs_of_each evaluations
      ok (runs ++ rest)

    unfoldable pub metric_runs : Outcome RunError (List MetricRun)
    unfolding sort_by_key
    metric_runs = do
      runs ← runs_of_each input.metric_evaluations
      ok (sort_by_key md.run_digest runs (λ r. r.metric_run_id ∷ []))
