-- ===== src/Reports/Series.antt =====
-- The checks that keep the metrics of aggregate postbacks and the others apart in apps/api/src/report-query.ts.
use open_mmp.Common.{
  Bool, true, false, not, ◌&&◌, ◌||◌, List, [], ◌∷◌, String, str_eq, any, filter, is_some, lookup,
  string_eq, ◌>>◌,
}
use open_mmp.Attribution.Metrics.Definitions.{contains}
use open_mmp.Reports.Query.{metric_series_mismatch}
use open_mmp.Reports.Filters.{Parsed, ensure}

abbrev pub aggregate_metric_names : List String
aggregate_metric_names =
    "skan_attributed_installs" ∷ "skan_conversion_value_distribution" ∷ "aak_attributed_installs"
    ∷ []

abbrev pub deterministic_only_dimensions : List String
deterministic_only_dimensions =
    "campaign_id" ∷ "network" ∷ "country" ∷ "cohort_date" ∷ "attribution_status" ∷ []

abbrev pub selected_aggregate : List String → List String
selected_aggregate names = filter (λ n. contains n aggregate_metric_names) names

abbrev pub selected_deterministic : List String → List String
selected_deterministic names = filter (λ n. not (contains n aggregate_metric_names)) names

abbrev pub is_given : List (String × String) → String → Bool
is_given grouping dimension = is_some (lookup dimension grouping)

abbrev pub is_sole_distribution : List String → Bool
is_sole_distribution (name ∷ []) = str_eq name "skan_conversion_value_distribution"
is_sole_distribution _ = false

abbrev pub is_empty {ℓ} : {A : Type ℓ} → List A → Bool
is_empty [] = true
is_empty (x ∷ xs) = false

unfoldable pub check_series : List String → List (String × String) → Parsed (Unit {0})
check_series names grouping = do
  ensure
      (is_empty (selected_aggregate names)
        || not (any (is_given grouping) deterministic_only_dimensions))
      metric_series_mismatch
  ensure
      (not (is_given grouping "apple_conversion_bucket")
        || (is_sole_distribution (selected_aggregate names)
            && is_empty (selected_deterministic names)))
      metric_series_mismatch
