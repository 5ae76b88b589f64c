-- ===== src/Reports/Sql.antt =====
-- `push`, `buildMetricQuery` and `buildDifferenceQuery` of apps/api/src/report-query.ts. The text of a statement is
-- the list of its pieces, a placeholder `$n` as the number n, and `join` puts them together.
pub mod Steps
pub mod Laws
pub mod Shape
use open_mmp.Common.{
  ℕ, suc, ◌+◌, Bool, true, false, List, [], ◌∷◌, ◌++◌, map, Option, none, some, String, str_eq,
  length, if◌then◌else◌,
}
use open_mmp.Reports.Query.{Supersession, latest, all_runs, MetricCursor, MetricQuery}

pub data Value : Type 0 where
  text : String → Value
  texts : List String → Value
  number : ℕ → Value

pub data Piece : Type 0 where
  literal : String → Piece
  placeholder : ℕ → Piece

pub record ParameterizedQuery : Type 0 where
  pub pieces : List Piece  -- `text`
  pub values : List Value

-- The predicates and the values so far.
pub record Built : Type 0 where
  pub predicates : List (List Piece)
  pub values : List Value

-- `Array.prototype.join`, of lists.
abbrev pub join {ℓ} : {A : Type ℓ} → List A → List (List A) → List A
join separator [] = []
join separator (x ∷ []) = x
join separator (x ∷ y ∷ xs) = x ++ (separator ++ join separator (y ∷ xs))

-- `push`: the values, and the placeholder of the new one.
abbrev pub push : List Value → Value → List Value × Piece
push values value = let pushed = values ++ value ∷ [] in (pushed, placeholder (length pushed))

-- `predicates.push` of a predicate without values.
unfoldable pub add_plain : String → Built → Built
add_plain predicate b = record b { predicates = b.predicates ++ (literal predicate ∷ []) ∷ [] }

-- `predicates.push` of a predicate with one value, pushed before.
unfoldable pub add_bound : List String → Value → String → Built → Built
add_bound before value after b =
    let (values, place) = push b.values value in
    record {
      predicates = b.predicates ++ (map literal before ++ place ∷ literal after ∷ []) ∷ [];
      values = values;
    }

-- `if (value) …`: the empty text is as good as none.
abbrev pub add_given : String → Option String → String → Built → Built
add_given before none after b = b
add_given before (some value) after b =
    if str_eq value "" then b else add_bound (before ∷ []) (text value) after b

abbrev pub add_names : Option (List String) → Built → Built
add_names none b = b
add_names (some names) b = add_bound ("mr.metric_name=ANY(" ∷ []) (texts names) "::text[])" b

unfoldable pub add_grouping : List (String × String) → Built → Built
add_grouping [] b = b
add_grouping ((dimension, value) ∷ grouping) b =
    add_grouping grouping (add_bound ("mr.grouping->>'" ∷ dimension ∷ "'=" ∷ []) (text value) "" b)

abbrev pub add_latest : Supersession → String → Built → Built
add_latest latest predicate b = add_plain predicate b
add_latest all_runs predicate b = b

-- The three values of a cursor are pushed in turn, and then the predicate.
unfoldable pub add_after : Option MetricCursor → Built → Built
add_after none b = b
add_after (some cursor) b =
    let (values1, metric) = push b.values (text cursor.metric_name) in
    let (values2, grouping) = push values1 (text cursor.grouping_digest) in
    let (values3, run) = push values2 (text cursor.metric_run_id) in
    record {
      predicates =
          b.predicates
          ++ (literal
                "(mr.metric_name COLLATE \"C\", mr.grouping_digest COLLATE \"C\", mr.metric_run_id COLLATE \"C\")\n      > ("
              ∷ metric
              ∷ literal " COLLATE \"C\", "
              ∷ grouping
              ∷ literal " COLLATE \"C\", "
              ∷ run
              ∷ literal " COLLATE \"C\")"
              ∷ [])
            ∷ [];
      values = values3;
    }

-- The predicates on the tenant and the app.
abbrev pub in_scope : String → String → MetricQuery → Built
in_scope tenant app q = record {
  predicates = (literal tenant ∷ placeholder 1 ∷ []) ∷ (literal app ∷ placeholder 2 ∷ []) ∷ [];
  values = text q.tenant_id ∷ text q.app_id ∷ [];
}

-- The limit is pushed last; one row more than asked for shows that there are more.
abbrev pub finished : String → String → ℕ → Built → ParameterizedQuery
finished head tail limit b =
    let (values, place) = push b.values (number (limit + 1)) in
    record {
      pieces =
          literal head
          ∷ (join (literal "\n        AND " ∷ []) b.predicates ++ literal tail ∷ place ∷ []);
      values = values;
    }

abbrev pub run_date_from : String
run_date_from =
    "COALESCE(NULLIF(mr.grouping->>'metric_date',''), NULLIF(mr.grouping->>'cohort_date','')) >= "

abbrev pub run_date_to : String
run_date_to =
    "COALESCE(NULLIF(mr.grouping->>'metric_date',''), NULLIF(mr.grouping->>'cohort_date','')) < "

abbrev pub not_replaced_run : String
not_replaced_run =
    "NOT EXISTS (\n      SELECT 1 FROM ledger.metric_runs AS replacement\n      WHERE replacement.tenant_id=mr.tenant_id AND replacement.app_id=mr.app_id\n        AND replacement.supersedes_metric_run_id=mr.metric_run_id\n    )"

abbrev pub select_runs : String
select_runs =
    "SELECT mr.artifact, mr.grouping_digest,\n      EXISTS (\n        SELECT 1 FROM ledger.metric_runs AS replacement\n        WHERE replacement.tenant_id=mr.tenant_id AND replacement.app_id=mr.app_id\n          AND replacement.supersedes_metric_run_id=mr.metric_run_id\n      ) AS superseded\n      FROM ledger.metric_runs AS mr\n      WHERE "

abbrev pub order_runs : String
order_runs =
    "\n      ORDER BY mr.metric_name COLLATE \"C\", mr.grouping_digest COLLATE \"C\", mr.metric_run_id COLLATE \"C\"\n      LIMIT "

abbrev pub metric_predicates : MetricQuery → Built
metric_predicates q =
    let b = in_scope "mr.tenant_id=" "mr.app_id=" q in
    let b1 = add_names q.metric_names b in
    let b2 = add_given "mr.metric_definition_version=" q.metric_definition_version "" b1 in
    let b3 = add_grouping q.grouping b2 in
    let b4 = add_given run_date_from q.date_from "" b3 in
    let b5 = add_given run_date_to q.date_to "" b4 in
    let b6 = add_given "mr.input_received_at_watermark <= " q.watermark_at_most "" b5 in
    let b7 = add_latest q.supersession not_replaced_run b6 in add_after q.after b7

unfoldable pub build_metric_query : MetricQuery → ParameterizedQuery
unfolding add_plain add_bound add_grouping add_after
build_metric_query q = finished select_runs order_runs q.limit (metric_predicates q)

abbrev pub artifact_date_from : String
artifact_date_from =
    "COALESCE(NULLIF(rr.artifact->>'metric_date',''), NULLIF(rr.artifact->>'cohort_date','')) >= "

abbrev pub artifact_date_to : String
artifact_date_to =
    "COALESCE(NULLIF(rr.artifact->>'metric_date',''), NULLIF(rr.artifact->>'cohort_date','')) < "

abbrev pub not_replaced_result : String
not_replaced_result =
    "NOT EXISTS (\n      SELECT 1 FROM ledger.reconciliation_results AS replacement\n      WHERE replacement.tenant_id=rr.tenant_id AND replacement.app_id=rr.app_id\n        AND replacement.supersedes_reconciliation_id=rr.reconciliation_id\n    )"

abbrev pub select_results : String
select_results =
    "SELECT rr.artifact,\n      EXISTS (\n        SELECT 1 FROM ledger.reconciliation_results AS replacement\n        WHERE replacement.tenant_id=rr.tenant_id AND replacement.app_id=rr.app_id\n          AND replacement.supersedes_reconciliation_id=rr.reconciliation_id\n      ) AS superseded\n      FROM ledger.reconciliation_results AS rr\n      WHERE "

abbrev pub order_results : String
order_results = "\n      ORDER BY rr.reconciliation_id COLLATE \"C\"\n      LIMIT "

abbrev pub difference_predicates : MetricQuery → Built
difference_predicates q =
    let b = in_scope "rr.tenant_id=" "rr.app_id=" q in
    let b1 = add_given "rr.difference_reason_code=" q.difference_reason_code "" b in
    let b2 = add_given artifact_date_from q.date_from "" b1 in
    let b3 = add_given artifact_date_to q.date_to "" b2 in
    add_latest q.supersession not_replaced_result b3

unfoldable pub build_difference_query : MetricQuery → ParameterizedQuery
unfolding add_plain add_bound
build_difference_query q = finished select_results order_results q.limit (difference_predicates q)
