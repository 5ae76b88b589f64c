-- ===== src/Reports/Cursor.antt =====
-- `parseCursor` and `encodeMetricCursor` of apps/api/src/report-query.ts. `decode` is `JSON.parse` of base64url, as the entries
-- of the object that it gives, and `encode` is base64url of `JSON.stringify`: both are the platform's.
pub mod Laws
use Prim.Native.String
use Prim.Native.Nat.{Ordering, lt}
use open_mmp.Common.{
  ℕ, Bool, true, false, not, ◌&&◌, ◌||◌, List, [], ◌∷◌, map, Option, none, some, String, str_eq,
  opt_eq, any, all, filter, first, length, ltb, leb, is_some, or_else, lookup, string_eq,
  if◌then◌else◌, Outcome, ok, throw, ◌>>=◌, ◌>>◌,
}
use open_mmp.Common.Sorting.{sort}
use open_mmp.Instant.{codes}
use open_mmp.Redirector.Parameters.{strip_prefix}
use open_mmp.Attribution.Order.{units, compare_text}
use open_mmp.Attribution.Metrics.Definitions.{contains}
use open_mmp.Reports.Query.{
  Supersession, latest, all_runs, MetricCursor, MetricQuery, Format, json, csv, ParsedReportQuery,
  ReportQueryError, duplicate_filter, identifying_grouping, unknown_filter, app_scope_mismatch,
  unsupported_format, export_invalid, export_requires_csv, metric_name_invalid,
  metric_definition_version_invalid, grouping_value_invalid, metric_series_mismatch, date_invalid,
  date_range_invalid, watermark_invalid, difference_reason_invalid, supersession_invalid,
  limit_invalid, cursor_invalid, grouping_dimensions, grouping_key, transport_keys, is_metric_name,
  is_identifier, is_digest, canonical_date, canonical_timestamp, is_grouping_value,
}
use open_mmp.Reports.Filters.{
  Params, Parsed, ensure, get_all, one, passes, is_identifying, check_keys, parse_format, is_csv,
  parse_export, unique, parse_metric_names, is_version, parse_one, with_dimension, parse_grouping,
  is_lt, is_range, parse_dates, parse_supersession, limit_of, within_limit, parse_limit,
}

-- The entries of a parsed object; a value that is no text is `none`.
abbrev pub Entries : Type 0
Entries = List (String × Option String)

abbrev pub join : String → List String → String
join separator [] = ""
join separator (x ∷ []) = x
join separator (x ∷ y ∷ xs) = String.◌++◌ x (String.◌++◌ separator (join separator (y ∷ xs)))

abbrev pub text_of : Entries → String → Option String
text_of entries key = or_else (lookup key entries) none

abbrev pub cursor_parts : Bool → Option String → Option String → Option String → Parsed MetricCursor
cursor_parts true (some metric_name) (some grouping_digest) (some metric_run_id) =
    if is_metric_name metric_name && is_digest grouping_digest && is_identifier metric_run_id
    then ok (record {
      metric_name = metric_name;
      grouping_digest = grouping_digest;
      metric_run_id = metric_run_id;
    })
    else throw cursor_invalid
cursor_parts _ _ _ _ = throw cursor_invalid

abbrev pub cursor_of_entries : Option Entries → Parsed MetricCursor
unfolding sort compare_text
cursor_of_entries none = throw cursor_invalid
cursor_of_entries (some entries) =
    cursor_parts
      (str_eq (join "," (sort compare_text (map (λ e. e.0) entries)))
        "groupingDigest,metricName,metricRunId")
      (text_of entries "metricName") (text_of entries "groupingDigest")
      (text_of entries "metricRunId")

unfoldable pub parse_cursor : (String → Option Entries) → String → Parsed MetricCursor
unfolding sort compare_text
parse_cursor decode encoded = cursor_of_entries (decode encoded)

-- What `JSON.stringify` is given.
abbrev pub cursor_entries : MetricCursor → List (String × String)
cursor_entries c =
    ("metricName", c.metric_name)
    ∷ ("groupingDigest", c.grouping_digest)
    ∷ ("metricRunId", c.metric_run_id)
    ∷ []

unfoldable pub encode_metric_cursor : (List (String × String) → String) → MetricCursor → String
encode_metric_cursor encode c = encode (cursor_entries c)

abbrev pub parse_after : (String → Option Entries) → Option String → Parsed (Option MetricCursor)
unfolding parse_cursor
parse_after decode none = ok none
parse_after decode (some encoded) = do cursor ← parse_cursor decode encoded; ok (some cursor)
