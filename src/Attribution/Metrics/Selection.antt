-- ===== src/Attribution/Metrics/Selection.antt =====
-- What an evaluation of metrics selects in `metricRuns` of packages/attribution-core/src/evaluator.ts: the attempts received by its watermark, those
-- that its privacy state lets it see, the installs of its group, and the current costs.
use Prim.Native.Nat.{Ordering}
use open_mmp.Common.{
  Bool, true, false, not, ◌&&◌, ◌||◌, List, [], ◌∷◌, map, Option, none, some, String, str_eq,
  opt_eq, any, all, filter, is_some, or_else, lookup, insert, string_eq, if◌then◌else◌, Outcome, ok,
  ◌>>=◌,
}
use open_mmp.Common.Ordering.{or_next}
use open_mmp.Common.Sorting.{at_most, sort}
use open_mmp.Attribution.Types.{CandidateAttempt, Digests}
use open_mmp.Attribution.Errors.{Error}
use open_mmp.Attribution.Order.{compare_text}
use open_mmp.Attribution.Candidates.{CompositeKey, composite_key, key_eq}
use open_mmp.Attribution.Results.{
  Lifecycle, redacted, purged, Decisions, LifecycleIndex, non_organic, attempt_evidence_key,
  filter_counted,
}
use open_mmp.Attribution.Metrics.Definitions.{CostRecord}
use open_mmp.Attribution.Metrics.Cohorts.{
  MetricGrouping, Statuses, is_install_event, is_status, matches_grouping,
}

pub record MetricEvaluation : Type 0 where
  pub input_received_at_watermark : String
  pub after_privacy : Bool  -- privacy_state === "after"
  pub grouping : Option MetricGrouping
  pub metric_names : Option (List String)
  pub metric_run_id_prefix : String
  pub supersedes_metric_run_id_prefix : Option String

-- `included`.
unfoldable pub included :
    Digests
    → Decisions
    → List CandidateAttempt
    → MetricEvaluation
    → Outcome Error (List CandidateAttempt)
unfolding filter_counted compare_text
included dg decisions all e = do
  counted ← filter_counted dg decisions (λ a. true) all
  ok (
      filter (λ a. at_most (compare_text a.event.received_at e.input_received_at_watermark))
        counted)

-- What became of an attempt, as far as the evaluation knows.
abbrev pub known_lifecycle : LifecycleIndex → MetricEvaluation → CandidateAttempt → Option Lifecycle
known_lifecycle lifecycle e a =
    if e.after_privacy then lookup ⦃e = key_eq⦄ (attempt_evidence_key a) lifecycle else none

-- `visible`.
unfoldable pub visible :
    LifecycleIndex → MetricEvaluation → List CandidateAttempt → List CandidateAttempt
visible lifecycle e attempts = filter (λ a. not (is_some (known_lifecycle lifecycle e a))) attempts

-- `installs`.
unfoldable pub grouped_installs :
    Statuses → Option MetricGrouping → List CandidateAttempt → Outcome Error (List CandidateAttempt)
unfolding matches_grouping
grouped_installs statuses grouping [] = ok []
grouped_installs statuses grouping (a ∷ attempts) =
    let rest = grouped_installs statuses grouping attempts in
    if is_install_event a
    then (do
      matches ← matches_grouping statuses grouping a
      installs ← rest
      ok (if matches then a ∷ installs else installs))
    else rest

abbrev pub revenue_events : List CandidateAttempt → List CandidateAttempt
revenue_events attempts =
    filter (λ a. str_eq a.event.event_name "ad_revenue" && a.event.payload.installation_level)
      attempts

pub data Reproducibility : Type 0 where
  fully_reproducible redaction_affected retention_affected : Reproducibility

abbrev pub is_redacted : Option Lifecycle → Bool
is_redacted (some redacted) = true
is_redacted _ = false

abbrev pub is_purged : Option Lifecycle → Bool
is_purged (some purged) = true
is_purged _ = false

unfoldable pub reproducibility :
    LifecycleIndex → MetricEvaluation → List CandidateAttempt → Reproducibility
reproducibility lifecycle e attempts =
    if any (λ a. is_redacted (known_lifecycle lifecycle e a)) attempts
    then redaction_affected
    else if any (λ a. is_purged (known_lifecycle lifecycle e a)) attempts
    then retention_affected
    else fully_reproducible

abbrev pub scope_of : CandidateAttempt → CompositeKey
scope_of a = composite_key (some a.server.tenant_id ∷ some a.server.app_id ∷ [])

abbrev pub cost_scope : CostRecord → CompositeKey
cost_scope c = composite_key (some c.tenant_id ∷ some c.app_id ∷ [])

abbrev pub is_empty {ℓ} : {A : Type ℓ} → List A → Bool
is_empty [] = true
is_empty (x ∷ xs) = false

abbrev pub asked : Option String → Option String → Bool
asked none actual = true
asked (some value) actual = opt_eq actual (some value)

abbrev pub cost_field : CostRecord → String → Option String
cost_field c field = or_else (lookup field c.dimensions) none

abbrev pub cost_in_group : Option MetricGrouping → CostRecord → Bool
cost_in_group none c = true
cost_in_group (some g) c =
    asked g.campaign_id (cost_field c "campaign_id")
    && asked g.network (cost_field c "network")
    && asked g.country (cost_field c "country")
    && asked g.cohort_date c.date

-- No status is asked for, or that of the attributed installs: costs go with no other.
abbrev pub bears_cost : Option MetricGrouping → Bool
bears_cost none = true
bears_cost (some g) =
    not (is_some g.attribution_status) || is_status g.attribution_status non_organic

-- The filter of `groupedCosts`, for a cohort of installs.
unfoldable pub is_grouped_cost : MetricEvaluation → List CandidateAttempt → CostRecord → Bool
unfolding compare_text
is_grouped_cost e installs c =
    bears_cost e.grouping
    && at_most (compare_text c.as_of e.input_received_at_watermark)
    && (is_empty installs || any (λ a. key_eq.beq (scope_of a) (cost_scope c)) installs)
    && cost_in_group e.grouping c

abbrev pub compare_costs : CostRecord → CostRecord → Ordering
unfolding compare_text
compare_costs a b =
    or_next (compare_text a.as_of b.as_of) (compare_text a.cost_record_id b.cost_record_id)

abbrev pub cost_key : CostRecord → CompositeKey
cost_key c = composite_key (some c.tenant_id ∷ some c.app_id ∷ some c.dimension_digest ∷ [])

-- `new Map(costs.map((cost) => [key, cost])).values()`, from the map so far.
unfoldable pub last_of_keys :
    List (CompositeKey × CostRecord) → List CostRecord → List (CompositeKey × CostRecord)
last_of_keys found [] = found
last_of_keys found (c ∷ costs) = last_of_keys (insert ⦃e = key_eq⦄ (cost_key c) c found) costs

-- `currentCosts`: of each scope and dimensions the cost that is last, sorted by time and identifier.
unfoldable pub current_costs :
    MetricEvaluation → List CandidateAttempt → List CostRecord → List CostRecord
unfolding compare_text sort last_of_keys is_grouped_cost
current_costs e installs costs =
    map (λ entry. entry.1)
      (last_of_keys [] (sort compare_costs (filter (is_grouped_cost e installs) costs)))
