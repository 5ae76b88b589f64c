-- ===== src/Reports/Parse.antt =====
-- `parseMetricQuery` of apps/api/src/report-query.ts: the filters in their order. A request's parameters are the pairs
-- of its `URLSearchParams`.
pub mod Laws
pub mod Admitted
use Prim.Native.String
use Prim.Native.Nat.{Ordering, lt}
use open_mmp.Common.{
  ℕ, Bool, true, false, not, ◌&&◌, ◌||◌, List, [], ◌∷◌, map, Option, none, some, String, str_eq,
  opt_eq, any, all, filter, first, length, ltb, leb, is_some, or_else, lookup, string_eq,
  if◌then◌else◌, Outcome, ok, throw, ◌>>=◌, ◌>>◌,
}
use open_mmp.Common.Sorting.{sort}
use open_mmp.Instant.{codes}
use open_mmp.Redirector.Parameters.{strip_prefix}
use open_mmp.Attribution.Order.{units, compare_text}
use open_mmp.Attribution.Metrics.Definitions.{contains}
use open_mmp.Reports.Query.{
  Supersession, latest, all_runs, MetricCursor, MetricQuery, Format, json, csv, ParsedReportQuery,
  ReportQueryError, duplicate_filter, identifying_grouping, unknown_filter, app_scope_mismatch,
  unsupported_format, export_invalid, export_requires_csv, metric_name_invalid,
  metric_definition_version_invalid, grouping_value_invalid, metric_series_mismatch, date_invalid,
  date_range_invalid, watermark_invalid, difference_reason_invalid, supersession_invalid,
  limit_invalid, cursor_invalid, grouping_dimensions, grouping_key, transport_keys, is_metric_name,
  is_identifier, is_digest, canonical_date, canonical_timestamp, is_grouping_value,
}
use open_mmp.Reports.Filters.{
  Params, Parsed, ensure, get_all, one, passes, is_identifying, check_keys, parse_format, is_csv,
  parse_export, unique, parse_metric_names, is_version, parse_one, with_dimension, parse_grouping,
  is_lt, is_range, parse_dates, parse_supersession, limit_of, within_limit, parse_limit,
}
use open_mmp.Reports.Series.{
  aggregate_metric_names, deterministic_only_dimensions, selected_aggregate, selected_deterministic,
  is_given, is_sole_distribution, is_empty, check_series,
}
use open_mmp.Reports.Cursor.{
  Entries, join, text_of, cursor_parts, cursor_of_entries, parse_cursor, encode_metric_cursor,
  parse_after,
}

abbrev pub named : List String → Option (List String)
named [] = none
named (name ∷ names) = some (name ∷ names)

pub record ReportRequest : Type 0 where
  pub tenant_id : String
  pub app_id : String
  pub search_params : Params
  pub maximum_rows : Option ℕ
  pub maximum_export_rows : Option ℕ

unfoldable pub parse_metric_query :
    (String → Option ℕ) → (String → Option Entries) → ReportRequest → Parsed ParsedReportQuery
unfolding is_version check_keys one parse_format parse_export parse_metric_names parse_one
    parse_grouping check_series parse_dates canonical_timestamp parse_supersession parse_limit
    parse_cursor
parse_metric_query number_of decode input = do
  let params = input.search_params
  check_keys params
  requested ← one params "app_id"
  ensure (passes (λ requested. str_eq requested input.app_id) requested) app_scope_mismatch
  format ← parse_format params
  export ← parse_export params format
  names ← parse_metric_names params
  version ←
      parse_one params "metric_definition_version" is_version metric_definition_version_invalid
  grouping ← parse_grouping grouping_dimensions params
  check_series names grouping
  (from, to) ← parse_dates params
  watermark ← parse_one params "watermark_at_most" canonical_timestamp watermark_invalid
  reason ← parse_one params "difference_reason_code" is_metric_name difference_reason_invalid
  supersession ← parse_supersession params
  limit ←
      parse_limit number_of params export (or_else input.maximum_rows 1000)
        (or_else input.maximum_export_rows 200000)
  encoded ← one params "after"
  after ← parse_after decode encoded
  ok (record {
    format = format;
    export = export;
    query = record {
      tenant_id = input.tenant_id;
      app_id = input.app_id;
      metric_names = named names;
      metric_definition_version = version;
      grouping = grouping;
      date_from = from;
      date_to = to;
      watermark_at_most = watermark;
      difference_reason_code = reason;
      supersession = supersession;
      limit = limit;
      after = after;
    };
  })
