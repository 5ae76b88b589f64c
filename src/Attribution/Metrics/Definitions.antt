-- ===== src/Attribution/Metrics/Definitions.antt =====
-- `baseMetricDefinitions`, `metricDefinitions` and `validateMetricDefinitionSeries` of
-- packages/attribution-core/src/evaluator.ts. The fields of a definition that no check and no metric
-- reads are left out.
use open_mmp.Common.{
  ℕ, Bool, true, false, not, ◌&&◌, List, [], ◌∷◌, ◌++◌, Option, none, some, String, str_eq, opt_eq,
  any, all, length, ◌==◌, if◌then◌else◌, Outcome, ok, throw, ◌>>◌,
}
use open_mmp.Attribution.Order.{sort_by_key}
use open_mmp.Money.{Amount}

pub data TimeZone : Type 0 where
  utc asia_tokyo : TimeZone

pub data WindowType : Type 0 where
  elapsed calendar_day activity_day : WindowType

pub record MetricDefinition : Type 0 where
  pub metric_name : String
  pub metric_definition_version : String
  pub aggregation_time_zone : TimeZone
  pub calculation : Option String
  pub numerator : Option String
  pub window_type : WindowType
  pub window_day : ℕ
  pub event_names : List String
  pub grouping_dimensions : List String
  pub dimensions_given : Bool  -- `grouping_dimensions` is there at all
  pub fraud_net : Bool  -- fraud_policy === "net"
  pub ratio_scale : Option ℕ
  pub activity_events : Option (List String)

abbrev pub reference_rule_version : String
reference_rule_version = "0.3.0"

abbrev pub revenue_definition : String → TimeZone → WindowType → MetricDefinition
revenue_definition metric_name zone window_type = record {
  metric_name = metric_name;
  metric_definition_version = reference_rule_version;
  aggregation_time_zone = zone;
  calculation = some "revenue_sum";
  numerator = some "revenue";
  window_type = window_type;
  window_day = 0;
  event_names = [];
  grouping_dimensions = [];
  dimensions_given = false;
  fraud_net = false;
  ratio_scale = none;
  activity_events = none;
}

abbrev pub base_metric_definitions : List MetricDefinition
base_metric_definitions =
    revenue_definition "d0_install_to_24h_ad_revenue_usd" utc elapsed
    ∷ revenue_definition "d0_utc_install_calendar_ad_revenue_usd" utc calendar_day
    ∷ revenue_definition "d0_jst_install_calendar_ad_revenue_usd" asia_tokyo calendar_day
    ∷ []

pub data MetricError : Type 0 where
  duplicate_metric_definition metric_definition_series_mismatch : String → MetricError
  cost_dimension_digest_mismatch : String → MetricError

-- `includes`.
abbrev pub contains : String → List String → Bool
contains value = any (λ x. str_eq x value)

abbrev pub aggregate_names : List String
aggregate_names =
    "skan_attributed_installs" ∷ "skan_conversion_value_distribution" ∷ "aak_attributed_installs"
    ∷ []

abbrev pub link_names : List String
link_names = "daily_deep_link_opens" ∷ "daily_deep_link_opens_by_status" ∷ []

abbrev pub is_aggregate_event : String → Bool
is_aggregate_event event = contains event ("skan_postback" ∷ "adattributionkit_postback" ∷ [])

abbrev pub expected_event : String → String
expected_event name =
    if str_eq name "aak_attributed_installs" then "adattributionkit_postback" else "skan_postback"

abbrev pub expected_grouping : String → List String
expected_grouping name =
    if str_eq name "skan_conversion_value_distribution"
    then "metric_date" ∷ "apple_conversion_bucket" ∷ []
    else "metric_date" ∷ []

abbrev pub link_grouping : String → List String
link_grouping name =
    if str_eq name "daily_deep_link_opens_by_status"
    then "metric_date" ∷ "campaign_id" ∷ "attribution_status" ∷ []
    else "metric_date" ∷ "campaign_id" ∷ []

abbrev pub is_utc : TimeZone → Bool
is_utc utc = true
is_utc asia_tokyo = false

abbrev pub is_event_count : MetricDefinition → Bool
is_event_count d = opt_eq d.calculation (some "event_count") && opt_eq d.numerator (some "events")

abbrev pub is_sole : String → List String → Bool
is_sole event (e ∷ []) = str_eq e event
is_sole event _ = false

abbrev pub is_grouping : List String → List String → Bool
is_grouping expected grouping =
    (length grouping == length expected) && all (λ value. contains value grouping) expected

-- What the checks ask of a definition by its name.
abbrev pub is_in_series : MetricDefinition → Bool
is_in_series d =
    if contains d.metric_name aggregate_names
    then is_event_count d
      && is_utc d.aggregation_time_zone
      && is_sole (expected_event d.metric_name) d.event_names
      && is_grouping (expected_grouping d.metric_name) d.grouping_dimensions
    else if contains d.metric_name link_names
    then is_event_count d
      && is_sole "deep_link_open" d.event_names
      && is_grouping (link_grouping d.metric_name) d.grouping_dimensions
    else not (any is_aggregate_event d.event_names)
      && not (contains "apple_conversion_bucket" d.grouping_dimensions)

abbrev pub validate_metric_definition_series : MetricDefinition → Outcome MetricError (Unit {0})
validate_metric_definition_series d =
    if is_in_series d then ok tt else throw (metric_definition_series_mismatch d.metric_name)

abbrev pub fail_if_named : List String → String → Outcome MetricError (Unit {0})
fail_if_named names name =
    if contains name names then throw (duplicate_metric_definition name) else ok tt

-- The loop, with the names so far.
unfoldable pub check_definitions :
    List String → List MetricDefinition → Outcome MetricError (Unit {0})
check_definitions names [] = ok tt
check_definitions names (d ∷ ds) = do
  fail_if_named names d.metric_name
  validate_metric_definition_series d
  check_definitions (d.metric_name ∷ names) ds

unfoldable pub metric_definitions :
    (MetricDefinition → String)
    → List MetricDefinition
    → Outcome MetricError (List MetricDefinition)
unfolding check_definitions sort_by_key
metric_definitions digest given = do
  let definitions = base_metric_definitions ++ given
  check_definitions [] definitions
  ok (sort_by_key digest definitions (λ d. d.metric_name ∷ d.metric_definition_version ∷ []))

pub record CostRecord : Type 0 where
  pub cost_record_id : String
  pub tenant_id : String
  pub app_id : String
  pub as_of : String
  pub dimension_digest : String
  pub dimensions : List (String × Option String)  -- network, campaign_id, ad_group_id, country
  pub date : Option String
  pub amount : Amount
  pub report_snapshot_digest : String
  pub rest : String

-- The dimensions that are given.
abbrev pub given_dimensions : List (String × Option String) → List (String × String)
given_dimensions [] = []
given_dimensions ((field, none) ∷ rest) = given_dimensions rest
given_dimensions ((field, some value) ∷ rest) = (field, value) ∷ given_dimensions rest

unfoldable pub check_costs :
    (List (String × String) → String) → List CostRecord → Outcome MetricError (Unit {0})
check_costs digest [] = ok tt
check_costs digest (r ∷ rs) = do
  if str_eq r.dimension_digest (digest (given_dimensions r.dimensions))
      then ok tt
      else throw (cost_dimension_digest_mismatch r.cost_record_id)
  check_costs digest rs

-- Each record as it is, with the version of the contract.
unfoldable pub cost_records :
    (List (String × String) → String)
    → (CostRecord → String)
    → List CostRecord
    → Outcome MetricError (List CostRecord)
unfolding check_costs sort_by_key
cost_records dimension_digest digest records = do
  check_costs dimension_digest records
  ok (sort_by_key digest records (λ r. r.cost_record_id ∷ r.tenant_id ∷ r.app_id ∷ r.as_of ∷ []))
