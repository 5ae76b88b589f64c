-- ===== src/Reports/Parse/Admitted.antt =====
-- What every query that `parseMetricQuery` returns is like.
use mathlib.Core.Path.{subst}
use open_mmp.Common.Sorting.{sort}
use open_mmp.Attribution.Order.{compare_text}
use open_mmp.Common.{
  ℕ, ◌≤◌, ◌≡◌, refl, sym, true, List, [], ◌∷◌, Option, String, all, or_else, if◌then◌else◌, All, ok,
  >>=-eq-ok,
}
use open_mmp.Attribution.Metrics.Definitions.{contains}
use open_mmp.Reports.Query.{
  MetricQuery, csv, ParsedReportQuery, grouping_dimensions, transport_keys, is_metric_name,
  canonical_timestamp, metric_name_invalid, difference_reason_invalid, watermark_invalid,
  metric_definition_version_invalid,
}
use open_mmp.Reports.Filters.{
  unique, get_all, Params, one, passes, check_keys, parse_format, parse_export, parse_metric_names,
  is_version, parse_one, parse_grouping, parse_dates, parse_supersession, parse_limit,
}
use open_mmp.Reports.Series.{check_series}
use open_mmp.Reports.Cursor.{Entries, parse_after}
use open_mmp.Reports.Parse.{named, ReportRequest, parse_metric_query}
use open_mmp.Reports.Parse.Laws.{
  ensure-next, check_keys-known, parse_one-passes, IsDimension, ok-subst,
  parse_grouping-IsDimension, parse_export-csv, parse_limit-bounds, KeepsSeries,
  check_series-KeepsSeries,
}

-- The names of the metrics that a query asks for; none stands for all.
abbrev pub names_of : MetricQuery → List String
names_of q = or_else q.metric_names []

pub record IsAdmitted (input : ReportRequest) (r : ParsedReportQuery) : Type 0 where
  pub of_tenant : r.query.tenant_id ≡ input.tenant_id
  pub of_app : r.query.app_id ≡ input.app_id
  pub known_keys : All (λ p. contains p.0 transport_keys ≡ true) input.search_params
  pub known_dimensions : All (IsDimension grouping_dimensions) r.query.grouping
  pub proper_names : all is_metric_name (names_of r.query) ≡ true
  pub keeps_series : KeepsSeries (names_of r.query) r.query.grouping
  pub proper_reason : passes is_metric_name r.query.difference_reason_code ≡ true
  pub proper_watermark : passes canonical_timestamp r.query.watermark_at_most ≡ true
  pub at_least_one : 1 ≤ r.query.limit
  pub at_most : r.query.limit ≤ (
      if r.export
      then or_else input.maximum_export_rows 200000
      else or_else input.maximum_rows 1000)
  pub exports_csv : r.export ≡ true → r.format ≡ csv

names_of-named : (names : List String) → or_else (named names) [] ≡ names
names_of-named [] = refl
names_of-named (name ∷ names) = refl

parse_metric_names-proper :
    (params : Params) {names : List String}
    → parse_metric_names params ≡ ok names
    → all is_metric_name names ≡ true
unfolding parse_metric_names
parse_metric_names-proper params h =
    let names = sort compare_text (unique (get_all params "metric_name")) in
    let (proper, h1) = ensure-next (all is_metric_name names) metric_name_invalid (ok names) h in
    ok-subst (λ names. all is_metric_name names ≡ true) h1 proper

-- A query that is returned is of the tenant and the app of the caller; all its parameters are known, and so are its
-- dimensions, whose values are proper; the names of its metrics and of its reason and its watermark are proper; no metric of aggregate postbacks
-- is asked for with a dimension of the other metrics; its limit is at least one and at most the maximum, that of exports for an export; and an export is
-- in CSV.
pub parse_metric_query-IsAdmitted :
    (number_of : String → Option ℕ) (decode : String → Option Entries) (input : ReportRequest)
    {r : ParsedReportQuery}
    → parse_metric_query number_of decode input ≡ ok r
    → IsAdmitted input r
unfolding parse_metric_query
parse_metric_query-IsAdmitted number_of decode input {r} h =
    let params = input.search_params in
    let (u, keys, h1) = >>=-eq-ok (check_keys params) _ h in
    let (requested, asked, h2) = >>=-eq-ok (one params "app_id") _ h1 in
    let (scoped, h3) = ensure-next _ _ _ h2 in
    let (format, formatted, h4) = >>=-eq-ok (parse_format params) _ h3 in
    let (export, exported, h5) = >>=-eq-ok (parse_export params format) _ h4 in
    let (names, listed, h6) = >>=-eq-ok (parse_metric_names params) _ h5 in
    let (version, versioned, h7) =
      >>=-eq-ok
        (parse_one params "metric_definition_version" is_version metric_definition_version_invalid)
        _ h6 in
    let (grouping, grouped, h8) = >>=-eq-ok (parse_grouping grouping_dimensions params) _ h7 in
    let (v, series, h9) = >>=-eq-ok (check_series names grouping) _ h8 in
    let (dates, dated, h10) = >>=-eq-ok (parse_dates params) _ h9 in
    let (watermark, marked, h11) =
      >>=-eq-ok (parse_one params "watermark_at_most" canonical_timestamp watermark_invalid) _
        h10 in
    let (reason, reasoned, h12) =
      >>=-eq-ok (parse_one params "difference_reason_code" is_metric_name difference_reason_invalid)
        _ h11 in
    let (supersession, superseded, h13) = >>=-eq-ok (parse_supersession params) _ h12 in
    let (limit, limited, h14) =
      >>=-eq-ok
        (parse_limit number_of params export (or_else input.maximum_rows 1000)
          (or_else input.maximum_export_rows 200000))
        _ h13 in
    let (encoded, found, h15) = >>=-eq-ok (one params "after") _ h14 in
    let (after, decoded, h16) = >>=-eq-ok (parse_after decode encoded) _ h15 in
    let (low, high) =
      parse_limit-bounds number_of params export (or_else input.maximum_rows 1000)
        (or_else input.maximum_export_rows 200000) limited in
    ok-subst (IsAdmitted input) h16 (record {
      of_tenant = refl;
      of_app = refl;
      known_keys = check_keys-known params keys;
      known_dimensions = parse_grouping-IsDimension grouping_dimensions params grouped;
      proper_names =
          subst (λ n. all is_metric_name n ≡ true) (sym (names_of-named names))
            (parse_metric_names-proper params listed);
      keeps_series =
          subst (λ n. KeepsSeries n grouping) (sym (names_of-named names))
            (check_series-KeepsSeries names grouping series);
      proper_reason =
          parse_one-passes params "difference_reason_code" is_metric_name difference_reason_invalid
            reasoned;
      proper_watermark =
          parse_one-passes params "watermark_at_most" canonical_timestamp watermark_invalid marked;
      at_least_one = low;
      at_most = high;
      exports_csv = parse_export-csv params format exported;
    })
