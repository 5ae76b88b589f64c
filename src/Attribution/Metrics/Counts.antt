-- ===== src/Attribution/Metrics/Counts.antt =====
-- The `event_count` of `metricRuns` of packages/attribution-core/src/evaluator.ts, with the checks before it.

use open_mmp.Common.{
  ℕ, zero, suc, ◌+◌, ◌/◌, ◌%◌, Bool, true, false, not, ◌&&◌, ◌||◌, List, [], ◌∷◌, ◌++◌, Option,
  none, some, String, str_eq, any, ltb, is_some, nat_eq, string_eq, list_eq, if◌then◌else◌, Outcome,
  ok, throw, ◌>>=◌, ◌>>◌,
}
use open_mmp.Common.Unique.{unique}
use open_mmp.Instant.{codes}
use open_mmp.Attribution.Types.{CandidateAttempt}
use open_mmp.Attribution.Results.{non_organic, SubjectScope, AttributionResult}
use open_mmp.Attribution.Metrics.Definitions.{
  utc, MetricDefinition, contains, aggregate_names, is_aggregate_event, expected_event, is_utc,
}
use open_mmp.Attribution.Metrics.Cohorts.{
  MetricGrouping, Statuses, status_eq, date_at, same_date, is_install_event, matches_grouping,
}
use open_mmp.Attribution.Metrics.Values.{
  RunError, metric_date_required, event_name_unsupported, utc_required, status_forbidden,
  event_mismatch, bucket_required, bucket_reserved, bucket_without_aggregate, status_not_of_event,
  of_attribution, Excluded, is_excluded,
}

abbrev pub require : Bool → RunError → Outcome RunError (Unit {0})
require true e = ok tt
require false e = throw e

-- `filter(…).length` of a test that may throw.
unfoldable pub count_each {ℓ} :
    {A : Type ℓ} → (A → Outcome RunError Bool) → List A → Outcome RunError ℕ
count_each f [] = ok 0
count_each f (x ∷ xs) = do hit ← f x; n ← count_each f xs; ok (if hit then suc n else n)

-- The decimal digits of a number, of which n + 1 are more than enough.
unfoldable pub decimal_codes : ℕ → ℕ → List ℕ
decimal_codes zero n = []
decimal_codes (suc fuel) n =
    let rest = decimal_codes fuel (n / 10) in
    if ltb n 10 then (48 + n) ∷ [] else rest ++ (48 + n % 10) ∷ []

abbrev pub actual_bucket : Option ℕ → Option String → Option (List ℕ)
unfolding decimal_codes
actual_bucket (some fine) coarse = some (codes "fine:" ++ decimal_codes (suc fine) fine)
actual_bucket none (some coarse) = some (codes "coarse:" ++ codes coarse)
actual_bucket none none = none

abbrev pub is_bucket : Option String → Option (List ℕ) → Bool
is_bucket none actual = true
is_bucket (some bucket) none = false
is_bucket (some bucket) (some actual) = (list_eq ⦃e = nat_eq⦄).beq actual (codes bucket)

abbrev pub is_aggregate_scope : SubjectScope → Bool
is_aggregate_scope SubjectScope.aggregate = true
is_aggregate_scope _ = false

abbrev pub is_attributed_postback : CandidateAttempt → AttributionResult → Bool
is_attributed_postback a r =
    str_eq r.tenant_id a.server.tenant_id
    && str_eq r.app_id a.server.app_id
    && is_aggregate_scope r.subject_scope
    && status_eq r.status non_organic
    && any (λ reference. str_eq reference.ref a.event.record_id) r.evidence_refs

unfoldable pub is_counted_postback :
    List AttributionResult
    → String
    → String
    → Option String
    → CandidateAttempt
    → Outcome RunError Bool
unfolding date_at actual_bucket decimal_codes
is_counted_postback attributions event metric_date bucket a =
    if str_eq a.event.event_name event
    then (do
      date ← of_attribution (date_at a.event.received_at utc "received_at")
      ok (
          same_date date (codes metric_date)
          && any (is_attributed_postback a) attributions
          && is_bucket bucket (
              actual_bucket a.event.payload.conversion_value
                a.event.payload.coarse_conversion_value)))
    else ok false

abbrev pub on_metric_date :
    MetricDefinition → String → CandidateAttempt → Bool → Outcome RunError Bool
on_metric_date d metric_date a false = ok false
on_metric_date d metric_date a true = do
  date ← of_attribution (date_at a.event.occurred_at d.aggregation_time_zone "occurred_at")
  ok (same_date date (codes metric_date))

unfoldable pub is_counted_event :
    MetricDefinition
    → Excluded
    → Statuses
    → Option MetricGrouping
    → List String
    → String
    → CandidateAttempt
    → Outcome RunError Bool
unfolding date_at matches_grouping
is_counted_event d excluded statuses grouping names metric_date a =
    if contains a.event.event_name names
      && (not d.fraud_net || not (is_install_event a) || not (is_excluded excluded a))
    then (do
      matches ← of_attribution (matches_grouping statuses grouping a)
      on_metric_date d metric_date a matches)
    else ok false

abbrev pub is_distribution : MetricDefinition → Bool
is_distribution d = str_eq d.metric_name "skan_conversion_value_distribution"

-- The checks of a count of aggregate postbacks.
unfoldable pub check_aggregate :
    MetricDefinition → MetricGrouping → String → Outcome RunError (Unit {0})
check_aggregate d g event = do
  require (is_utc d.aggregation_time_zone) (utc_required d.metric_name)
  require (not (is_some g.attribution_status)) (status_forbidden d.metric_name)
  require (contains d.metric_name aggregate_names && str_eq event (expected_event d.metric_name))
      (event_mismatch d.metric_name)
  require (not (is_distribution d) || is_some g.apple_conversion_bucket)
      (bucket_required d.metric_name)
  require (is_distribution d || not (is_some g.apple_conversion_bucket))
      (bucket_reserved d.metric_name)

-- The checks of any other count.
unfoldable pub check_event :
    MetricDefinition → MetricGrouping → String → Outcome RunError (Unit {0})
check_event d g event = do
  require (not (is_some g.apple_conversion_bucket)) (bucket_without_aggregate d.metric_name)
  require (not (is_some g.attribution_status) || contains event ("install" ∷ "deep_link_open" ∷ []))
      (status_not_of_event d.metric_name)

abbrev pub supported_events : List String
supported_events =
    "click" ∷ "install" ∷ "deep_link_open" ∷ "skan_postback" ∷ "adattributionkit_postback" ∷ []

-- The one event of a definition, if it is supported.
abbrev pub sole_event : MetricDefinition → List String → Outcome RunError String
sole_event d (event ∷ []) =
    if contains event supported_events
    then ok event
    else throw (event_name_unsupported d.metric_name)
sole_event d _ = throw (event_name_unsupported d.metric_name)

module _ (attributions : List AttributionResult) (statuses : Statuses) (excluded : Excluded) where
  abbrev pub count_of :
      MetricDefinition
      → MetricGrouping
      → String
      → String
      → List CandidateAttempt
      → Outcome RunError ℕ
  count_of d g event metric_date visible =
      if is_aggregate_event event
      then (do
        check_aggregate d g event
        count_each (is_counted_postback attributions event metric_date g.apple_conversion_bucket)
            visible)
      else (do
        check_event d g event
        count_each
            (is_counted_event d excluded statuses (some g) (unique d.event_names) metric_date)
            visible)

  abbrev pub count_on_date :
      MetricDefinition → MetricGrouping → Option String → List CandidateAttempt → Outcome RunError ℕ
  unfolding unique
  count_on_date d g none visible = throw (metric_date_required d.metric_name)
  count_on_date d g (some metric_date) visible = do
    event ← sole_event d (unique d.event_names)
    count_of d g event metric_date visible

  unfoldable pub event_count :
      MetricDefinition → Option MetricGrouping → List CandidateAttempt → Outcome RunError ℕ
  unfolding unique count_each is_counted_postback is_counted_event check_aggregate check_event
  event_count d none visible = throw (metric_date_required d.metric_name)
  event_count d (some g) visible = count_on_date d g g.metric_date visible
