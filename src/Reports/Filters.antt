-- ===== src/Reports/Filters.antt =====
-- The filters of a request in apps/api/src/report-query.ts, each read and checked by itself. `number_of` is `Number` of a
-- text where it is a safe integer and not negative.
use Prim.Native.Nat.{Ordering, lt}
use open_mmp.Common.{
  ℕ, Bool, true, false, not, ◌&&◌, ◌||◌, List, [], ◌∷◌, map, Option, none, some, String, str_eq,
  all, filter, first, length, ltb, leb, or_else, string_eq, if◌then◌else◌, Outcome, ok, throw,
  ◌>>=◌, ◌>>◌,
}
use open_mmp.Common.Sorting.{sort}
use open_mmp.Instant.{codes}
use open_mmp.Redirector.Parameters.{strip_prefix}
use open_mmp.Attribution.Order.{units, compare_text}
use open_mmp.Attribution.Metrics.Definitions.{contains}
use open_mmp.Reports.Query.{
  Supersession, latest, all_runs, Format, json, csv, ReportQueryError, duplicate_filter,
  identifying_grouping, unknown_filter, unsupported_format, export_invalid, export_requires_csv,
  metric_name_invalid, grouping_value_invalid, date_invalid, date_range_invalid,
  supersession_invalid, limit_invalid, grouping_key, transport_keys, is_metric_name, canonical_date,
  is_grouping_value,
}

abbrev pub Params : Type 0
Params = List (String × String)

abbrev pub Parsed {ℓ} : Type ℓ → Type ℓ
Parsed A = Outcome ReportQueryError A

abbrev pub ensure : Bool → ReportQueryError → Parsed (Unit {0})
ensure true e = ok tt
ensure false e = throw e

-- `params.getAll(key)`.
abbrev pub get_all : Params → String → List String
get_all params key = map (λ p. p.1) (filter (λ p. str_eq p.0 key) params)

unfoldable pub one : Params → String → Parsed (Option String)
one params key =
    let values = get_all params key in
    if ltb 1 (length values) then throw duplicate_filter else ok (first values)

-- What an optional text has to pass.
abbrev pub passes : (String → Bool) → Option String → Bool
passes p none = true
passes p (some value) = p value

abbrev pub is_identifying : Option String → Bool
is_identifying none = false
is_identifying (some requested) =
    contains requested
      ("installation_id" ∷ "click_id" ∷ "record_id" ∷ "payload" ∷ "payload_ref" ∷ [])

unfoldable pub check_keys : Params → Parsed (Unit {0})
unfolding strip_prefix
check_keys [] = ok tt
check_keys ((key, value) ∷ params) = do
  ensure (contains key transport_keys || not (is_identifying (strip_prefix "grouping_" key)))
      identifying_grouping
  ensure (contains key transport_keys) unknown_filter
  check_keys params

unfoldable pub parse_format : Params → Parsed Format
unfolding one
parse_format params = do
  given ← one params "format"
  let format = or_else given "json"
  if str_eq format "json"
      then ok json
      else if str_eq format "csv"
      then ok csv
      else throw unsupported_format

abbrev pub is_csv : Format → Bool
is_csv json = false
is_csv csv = true

unfoldable pub parse_export : Params → Format → Parsed Bool
unfolding one
parse_export params format = do
  given ← one params "export"
  let value = or_else given "false"
  ensure (str_eq value "true" || str_eq value "false") export_invalid
  ensure (not (str_eq value "true") || is_csv format) export_requires_csv
  ok (str_eq value "true")

-- `[...new Set(values)]`.
unfoldable pub unique : List String → List String
unique [] = []
unique (x ∷ xs) = x ∷ filter (λ y. not (str_eq y x)) (unique xs)

unfoldable pub parse_metric_names : Params → Parsed (List String)
unfolding unique sort compare_text
parse_metric_names params = do
  let names = sort compare_text (unique (get_all params "metric_name"))
  ensure (all is_metric_name names) metric_name_invalid
  ok names

unfoldable pub is_version : String → Bool
unfolding units
is_version value = let n = length (units (codes value)) in not (ltb n 1 || ltb 64 n)

-- A filter that stands once at most, and passes a test.
unfoldable pub parse_one :
    Params → String → (String → Bool) → ReportQueryError → Parsed (Option String)
unfolding one
parse_one params key p e = do value ← one params key; ensure (passes p value) e; ok value

abbrev pub with_dimension : String → Option String → List (String × String) → List (String × String)
with_dimension dimension none grouping = grouping
with_dimension dimension (some value) grouping = (dimension, value) ∷ grouping

-- The loop over the dimensions.
unfoldable pub parse_grouping : List String → Params → Parsed (List (String × String))
unfolding parse_one
parse_grouping [] params = ok []
parse_grouping (dimension ∷ dimensions) params = do
  value ←
      parse_one params (grouping_key dimension) (is_grouping_value dimension) grouping_value_invalid
  grouping ← parse_grouping dimensions params
  ok (with_dimension dimension value grouping)

abbrev pub is_lt : Ordering → Bool
is_lt lt = true
is_lt _ = false

-- Whether the first date is before the second, where both are given.
abbrev pub is_range : Option String → Option String → Bool
unfolding compare_text
is_range (some from) (some to) = is_lt (compare_text from to)
is_range _ _ = true

unfoldable pub parse_dates : Params → Parsed (Option String × Option String)
unfolding one canonical_date compare_text
parse_dates params = do
  from ← one params "date_from"
  to ← one params "date_to"
  ensure (passes canonical_date from && passes canonical_date to) date_invalid
  ensure (is_range from to) date_range_invalid
  ok (from, to)

unfoldable pub parse_supersession : Params → Parsed Supersession
unfolding one
parse_supersession params = do
  given ← one params "supersession"
  let value = or_else given "latest"
  if str_eq value "latest"
      then ok latest
      else if str_eq value "all"
      then ok all_runs
      else throw supersession_invalid

abbrev pub limit_of : (String → Option ℕ) → ℕ → Option String → Option ℕ
limit_of number_of default none = some default
limit_of number_of default (some value) = number_of value

abbrev pub within_limit : ℕ → Option ℕ → Parsed ℕ
within_limit maximum none = throw limit_invalid
within_limit maximum (some n) = if leb 1 n && leb n maximum then ok n else throw limit_invalid

unfoldable pub parse_limit : (String → Option ℕ) → Params → Bool → ℕ → ℕ → Parsed ℕ
unfolding one
parse_limit number_of params export maximum_rows maximum_export_rows = do
  given ← one params "limit"
  within_limit (if export then maximum_export_rows else maximum_rows)
      (limit_of number_of (if export then maximum_export_rows else 200) given)
