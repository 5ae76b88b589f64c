-- ===== src/Attribution/Tests/Definitions.antt =====
-- The definitions of the program with that of a count of deep links.
use open_mmp.Common.{
  ◌≡◌, refl, true, false, none, String, List, [], ◌∷◌, map, some, Outcome, ok, throw,
}
use open_mmp.Common.Sorting.{insert_sorted, sort}
use open_mmp.Attribution.Order.{units, compare_text, compare_keys, sort_by_key}
use open_mmp.Attribution.Metrics.Definitions.{
  MetricDefinition, utc, elapsed, MetricError, metric_definition_series_mismatch, check_definitions,
  metric_definitions,
}

abbrev opens : List String → MetricDefinition
opens grouping = record {
  metric_name = "daily_deep_link_opens";
  metric_definition_version = "1";
  aggregation_time_zone = utc;
  calculation = some "event_count";
  numerator = some "events";
  window_type = elapsed;
  window_day = 0;
  event_names = "deep_link_open" ∷ [];
  grouping_dimensions = grouping;
  dimensions_given = true;
  fraud_net = false;
  ratio_scale = none;
  activity_events = none;
}

abbrev by_name : MetricDefinition → String
by_name d = d.metric_name

abbrev ordered : List MetricDefinition
ordered = opens ("campaign_id" ∷ "metric_date" ∷ []) ∷ []

abbrev names_of : Outcome MetricError (List MetricDefinition) → List String
names_of (ok ds) = map by_name ds
names_of (throw e) = []

definitions_tests :
    (names_of (metric_definitions by_name ordered)
      ≡ "d0_install_to_24h_ad_revenue_usd" ∷ "d0_jst_install_calendar_ad_revenue_usd"
        ∷ "d0_utc_install_calendar_ad_revenue_usd" ∷ "daily_deep_link_opens" ∷ [])
    × (metric_definitions by_name (opens [] ∷ [])
        ≡ throw (metric_definition_series_mismatch "daily_deep_link_opens"))
unfolding metric_definitions check_definitions sort_by_key sort insert_sorted compare_keys
    compare_text units
definitions_tests = (refl, refl)
