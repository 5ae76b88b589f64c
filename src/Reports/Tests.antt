-- ===== src/Reports/Tests.antt =====
-- Requests that are read, and the statements that are made of them.
use open_mmp.Common.{
  ℕ, ◌≡◌, ◌↔◌, refl, false, [], ◌∷◌, map, Option, none, some, String, Outcome, ok, throw,
}
use open_mmp.Common.Sorting.{insert_sorted}
use open_mmp.Reports.Query.{
  latest, MetricCursor, MetricQuery, json, ParsedReportQuery, ReportQueryError,
  identifying_grouping, unknown_filter, duplicate_filter, metric_series_mismatch, date_invalid,
  export_requires_csv,
}
use open_mmp.Reports.Filters.{Params}
use open_mmp.Reports.Cursor.{Entries, cursor_entries, parse_cursor, encode_metric_cursor}
use open_mmp.Reports.Cursor.Laws.{IsCursor, as_parsed, parse_cursor-encode_iff}
use open_mmp.Reports.Parse.{ReportRequest, parse_metric_query}
use open_mmp.Reports.Parse.Admitted.{IsAdmitted, parse_metric_query-IsAdmitted}
use open_mmp.Reports.Sql.{
  text, number, literal, placeholder, select_runs, order_runs, select_results, order_results,
  build_metric_query, build_difference_query, not_replaced_result,
}
use open_mmp.Reports.Sql.Steps.{resolve}
use open_mmp.Reports.Sql.Laws.{
  statement, metric_parts, difference_parts, build_metric_query-resolve,
  build_difference_query-resolve,
}
use open_mmp.Reports.Sql.Shape.{build_queries-pieces}

-- Numbers and cursors of the platform, as far as the tests need them.
abbrev number_of : String → Option ℕ
number_of value = some 50

abbrev cursor : MetricCursor
cursor = record {
  metric_name = "installs";
  grouping_digest = "00000000000000000000000000000000000000000000000000000000000000ff";
  metric_run_id = "run:1";
}

abbrev decode : String → Option Entries
decode encoded = some (as_parsed (cursor_entries cursor))

abbrev request : Params → ReportRequest
request params = record {
  tenant_id = "acme";
  app_id = "game";
  search_params = params;
  maximum_rows = none;
  maximum_export_rows = none;
}

abbrev params : Params
params =
    ("metric_name", "installs")
    ∷ ("grouping_country", "JP")
    ∷ ("date_from", "2026-08-01")
    ∷ ("limit", "50")
    ∷ ("after", "x")
    ∷ []

abbrev parsed : ParsedReportQuery
parsed = record {
  format = json;
  export = false;
  query = record {
    tenant_id = "acme";
    app_id = "game";
    metric_names = some ("installs" ∷ []);
    metric_definition_version = none;
    grouping = ("country", "JP") ∷ [];
    date_from = some "2026-08-01";
    date_to = none;
    watermark_at_most = none;
    difference_reason_code = none;
    supersession = latest;
    limit = 50;
    after = some cursor;
  };
}

parse_metric_query-IsAdmitted_example : IsAdmitted (request params) parsed
unfolding parse_metric_query insert_sorted
parse_metric_query-IsAdmitted_example =
    parse_metric_query-IsAdmitted number_of decode (request params) refl

abbrev refused : Params → Outcome ReportQueryError ParsedReportQuery
refused params = parse_metric_query number_of decode (request params)

refused_tests :
    (refused (("grouping_click_id", "c1") ∷ []) ≡ throw identifying_grouping)
    × (refused (("grouping_device", "d1") ∷ []) ≡ throw unknown_filter)
    × (refused (("limit", "1") ∷ ("limit", "2") ∷ []) ≡ throw duplicate_filter)
    × (refused (("date_to", "2026-02-30") ∷ []) ≡ throw date_invalid)
    × (refused (("export", "true") ∷ []) ≡ throw export_requires_csv)
    × (refused (("metric_name", "skan_attributed_installs") ∷ ("grouping_network", "n") ∷ [])
        ≡ throw metric_series_mismatch)
unfolding parse_metric_query insert_sorted
refused_tests = (refl, refl, refl, refl, refl, refl)

parse_cursor-encode_iff_example :
    (parse_cursor decode (encode_metric_cursor (λ entries. "x") cursor) ≡ ok cursor)
    ↔ IsCursor cursor
parse_cursor-encode_iff_example = parse_cursor-encode_iff (λ entries. "x") decode cursor refl

build_metric_query-resolve_example :
    map (resolve (build_metric_query parsed.query).values) (build_metric_query parsed.query).pieces
    ≡ map some (statement select_runs (metric_parts parsed.query) order_runs 50)
build_metric_query-resolve_example = build_metric_query-resolve parsed.query

build_difference_query-resolve_example :
    map
      (resolve (build_difference_query parsed.query).values)
      (build_difference_query parsed.query).pieces
    ≡ map some (statement select_results (difference_parts parsed.query) order_results 50)
build_difference_query-resolve_example = build_difference_query-resolve parsed.query

difference_test :
    ((build_difference_query (record parsed.query { date_from = none })).values
      ≡ text "acme" ∷ text "game" ∷ number 51 ∷ [])
    × ((build_difference_query (record parsed.query { date_from = none })).pieces
        ≡ literal select_results
          ∷ literal "rr.tenant_id="
          ∷ placeholder 1
          ∷ literal "\n        AND "
          ∷ literal "rr.app_id="
          ∷ placeholder 2
          ∷ literal "\n        AND "
          ∷ literal not_replaced_result
          ∷ literal order_results
          ∷ placeholder 3
          ∷ [])
unfolding build_difference_query
difference_test = (refl, refl)

abbrev other : MetricQuery
other = record parsed.query {
  tenant_id = "'; DROP TABLE";
  grouping = ("country", "US") ∷ [];
  limit = 7;
}

build_queries-pieces_example :
    ((build_metric_query parsed.query).pieces ≡ (build_metric_query other).pieces)
    × ((build_difference_query parsed.query).pieces ≡ (build_difference_query other).pieces)
build_queries-pieces_example = build_queries-pieces parsed.query other (record {
  names = refl;
  version = refl;
  dimensions = refl;
  from = refl;
  to = refl;
  watermark = refl;
  reason = refl;
  supersession = refl;
  after = refl;
})
