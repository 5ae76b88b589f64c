-- ===== src/Reports/Sql/Laws.antt =====
-- The statements with their values in place, and that their text is made without the values.
use open_mmp.Common.{ℕ, ◌+◌, ◌≡◌, refl, List, [], ◌∷◌, ◌++◌, map, some, String}
use open_mmp.Common.Pointwise.{Pointwise-append, Pointwise-map}
use open_mmp.Reports.Query.{MetricQuery}
use open_mmp.Reports.Sql.{
  text, number, literal, Built, join, add_given, add_names, add_grouping, add_latest, in_scope,
  finished, run_date_from, run_date_to, not_replaced_run, select_runs, order_runs,
  metric_predicates, build_metric_query, artifact_date_from, artifact_date_to, not_replaced_result,
  select_results, order_results, difference_predicates, build_difference_query,
}
use open_mmp.Reports.Sql.Steps.{
  Part, sql, bound, value_at, resolve, IsPart, IsPart-push, Reads, Stands-push, Stands-join,
  BuiltAs, given_parts, add_given-BuiltAs, name_parts, add_names-BuiltAs, grouping_part,
  add_grouping-BuiltAs, latest_parts, add_latest-BuiltAs, after_parts, add_after-BuiltAs,
}

-- A statement: its conditions joined by AND, and one row more than its limit.
abbrev pub statement : String → List (List Part) → String → ℕ → List Part
statement head conditions tail limit =
    sql head
    ∷ (join (sql "\n        AND " ∷ []) conditions ++ sql tail ∷ bound (number (limit + 1)) ∷ [])

abbrev pub scope_parts : String → String → MetricQuery → List (List Part)
scope_parts tenant app q =
    (sql tenant ∷ bound (text q.tenant_id) ∷ []) ∷ (sql app ∷ bound (text q.app_id) ∷ []) ∷ []

abbrev pub metric_parts : MetricQuery → List (List Part)
metric_parts q =
    scope_parts "mr.tenant_id=" "mr.app_id=" q
    ++ name_parts q.metric_names
    ++ given_parts "mr.metric_definition_version=" q.metric_definition_version ""
    ++ map grouping_part q.grouping
    ++ given_parts run_date_from q.date_from ""
    ++ given_parts run_date_to q.date_to ""
    ++ given_parts "mr.input_received_at_watermark <= " q.watermark_at_most ""
    ++ latest_parts q.supersession not_replaced_run
    ++ after_parts q.after

abbrev pub difference_parts : MetricQuery → List (List Part)
difference_parts q =
    scope_parts "rr.tenant_id=" "rr.app_id=" q
    ++ given_parts "rr.difference_reason_code=" q.difference_reason_code ""
    ++ given_parts artifact_date_from q.date_from ""
    ++ given_parts artifact_date_to q.date_to ""
    ++ latest_parts q.supersession not_replaced_result

in_scope-BuiltAs :
    (tenant app : String) (q : MetricQuery)
    → BuiltAs (in_scope tenant app q) (scope_parts tenant app q)
unfolding resolve
in_scope-BuiltAs tenant app q = unfold value_at in ((refl, (refl, tt)), ((refl, (refl, tt)), tt))

finished-Reads :
    (head tail : String) (limit : ℕ) (b : Built) (xs : List (List Part))
    → BuiltAs b xs
    → Reads
        (finished head tail limit b).values
        (finished head tail limit b).pieces
        (statement head xs tail limit)
unfolding resolve
finished-Reads head tail limit b xs h =
    let v = number (limit + 1) in
    let vs = b.values ++ v ∷ [] in
    let kept = Stands-push b.values (v ∷ []) b.predicates xs h in
    (
      refl,
      Pointwise-append (IsPart vs) (join (literal "\n        AND " ∷ []) b.predicates)
          (join (sql "\n        AND " ∷ []) xs) _ _
          (Stands-join vs "\n        AND " b.predicates xs kept)
          (refl, (IsPart-push b.values v, tt)),
    )

metric_predicates-BuiltAs : (q : MetricQuery) → BuiltAs (metric_predicates q) (metric_parts q)
metric_predicates-BuiltAs q =
    let b0 = in_scope "mr.tenant_id=" "mr.app_id=" q in
    let x0 = scope_parts "mr.tenant_id=" "mr.app_id=" q in
    let h0 = in_scope-BuiltAs "mr.tenant_id=" "mr.app_id=" q in
    let b1 = add_names q.metric_names b0 in
    let x1 = x0 ++ name_parts q.metric_names in
    let h1 = add_names-BuiltAs q.metric_names b0 x0 h0 in
    let b2 = add_given "mr.metric_definition_version=" q.metric_definition_version "" b1 in
    let x2 = x1 ++ given_parts "mr.metric_definition_version=" q.metric_definition_version "" in
    let h2 =
      add_given-BuiltAs "mr.metric_definition_version=" q.metric_definition_version "" b1 x1 h1 in
    let b3 = add_grouping q.grouping b2 in
    let x3 = x2 ++ map grouping_part q.grouping in
    let h3 = add_grouping-BuiltAs q.grouping b2 x2 h2 in
    let b4 = add_given run_date_from q.date_from "" b3 in
    let x4 = x3 ++ given_parts run_date_from q.date_from "" in
    let h4 = add_given-BuiltAs run_date_from q.date_from "" b3 x3 h3 in
    let b5 = add_given run_date_to q.date_to "" b4 in
    let x5 = x4 ++ given_parts run_date_to q.date_to "" in
    let h5 = add_given-BuiltAs run_date_to q.date_to "" b4 x4 h4 in
    let b6 = add_given "mr.input_received_at_watermark <= " q.watermark_at_most "" b5 in
    let x6 = x5 ++ given_parts "mr.input_received_at_watermark <= " q.watermark_at_most "" in
    let h6 =
      add_given-BuiltAs "mr.input_received_at_watermark <= " q.watermark_at_most "" b5 x5 h5 in
    let b7 = add_latest q.supersession not_replaced_run b6 in
    let x7 = x6 ++ latest_parts q.supersession not_replaced_run in
    let h7 = add_latest-BuiltAs q.supersession not_replaced_run b6 x6 h6 in
    add_after-BuiltAs q.after b7 x7 h7

difference_predicates-BuiltAs :
    (q : MetricQuery) → BuiltAs (difference_predicates q) (difference_parts q)
difference_predicates-BuiltAs q =
    let b0 = in_scope "rr.tenant_id=" "rr.app_id=" q in
    let x0 = scope_parts "rr.tenant_id=" "rr.app_id=" q in
    let h0 = in_scope-BuiltAs "rr.tenant_id=" "rr.app_id=" q in
    let b1 = add_given "rr.difference_reason_code=" q.difference_reason_code "" b0 in
    let x1 = x0 ++ given_parts "rr.difference_reason_code=" q.difference_reason_code "" in
    let h1 = add_given-BuiltAs "rr.difference_reason_code=" q.difference_reason_code "" b0 x0 h0 in
    let b2 = add_given artifact_date_from q.date_from "" b1 in
    let x2 = x1 ++ given_parts artifact_date_from q.date_from "" in
    let h2 = add_given-BuiltAs artifact_date_from q.date_from "" b1 x1 h1 in
    let b3 = add_given artifact_date_to q.date_to "" b2 in
    let x3 = x2 ++ given_parts artifact_date_to q.date_to "" in
    let h3 = add_given-BuiltAs artifact_date_to q.date_to "" b2 x2 h2 in
    add_latest-BuiltAs q.supersession not_replaced_result b3 x3 h3

-- In the statement of a query of metrics each placeholder is that of the value that its condition is
-- about: with the values in their places it asks for the tenant and the app, for every filter
-- that is given, for runs that none replaces if the latest are asked for, for those after the cursor, and for one row more than the limit.
pub build_metric_query-resolve :
    (q : MetricQuery)
    → map (resolve (build_metric_query q).values) (build_metric_query q).pieces
      ≡ map some (statement select_runs (metric_parts q) order_runs q.limit)
unfolding build_metric_query
build_metric_query-resolve q =
    Pointwise-map (resolve (build_metric_query q).values) some (build_metric_query q).pieces
      (statement select_runs (metric_parts q) order_runs q.limit)
      (finished-Reads select_runs order_runs q.limit (metric_predicates q) (metric_parts q)
        (metric_predicates-BuiltAs q))

-- The same of the statement of a query of differences.
pub build_difference_query-resolve :
    (q : MetricQuery)
    → map (resolve (build_difference_query q).values) (build_difference_query q).pieces
      ≡ map some (statement select_results (difference_parts q) order_results q.limit)
unfolding build_difference_query
build_difference_query-resolve q =
    Pointwise-map (resolve (build_difference_query q).values) some (build_difference_query q).pieces
      (statement select_results (difference_parts q) order_results q.limit)
      (finished-Reads select_results order_results q.limit (difference_predicates q)
        (difference_parts q) (difference_predicates-BuiltAs q))
