-- ===== src/Reports/Query.antt =====
-- The data of apps/api/src/report-query.ts, and its tests on texts. A regular expression is a test on the codes of a text.
use Prim.Native.String
use open_mmp.Common.{
  ℕ, Bool, true, false, ◌&&◌, ◌||◌, List, [], ◌∷◌, map, Option, String, str_eq, any, all, length,
  ◌==◌, is_some, none, some, if◌then◌else◌,
}
use open_mmp.Instant.{codes, to_instant}
use open_mmp.Redirector.Parameters.{strip_prefix, within}

pub data Supersession : Type 0 where
  latest all_runs : Supersession  -- "latest", "all"

pub record MetricCursor : Type 0 where
  pub metric_name : String
  pub grouping_digest : String
  pub metric_run_id : String

pub record MetricQuery : Type 0 where
  pub tenant_id : String
  pub app_id : String
  pub metric_names : Option (List String)
  pub metric_definition_version : Option String
  pub grouping : List (String × String)  -- dimensions and values; none where it is left out
  pub date_from : Option String
  pub date_to : Option String
  pub watermark_at_most : Option String
  pub difference_reason_code : Option String
  pub supersession : Supersession
  pub limit : ℕ
  pub after : Option MetricCursor

pub data Format : Type 0 where
  json csv : Format

pub record ParsedReportQuery : Type 0 where
  pub query : MetricQuery
  pub format : Format
  pub export : Bool

-- The codes of `ReportQueryError`.
pub data ReportQueryError : Type 0 where
  duplicate_filter identifying_grouping unknown_filter app_scope_mismatch : ReportQueryError
  unsupported_format export_invalid export_requires_csv : ReportQueryError
  metric_name_invalid metric_definition_version_invalid grouping_value_invalid : ReportQueryError
  metric_series_mismatch date_invalid date_range_invalid watermark_invalid : ReportQueryError
  difference_reason_invalid supersession_invalid limit_invalid cursor_invalid : ReportQueryError

-- The keys of `groupingDimensionAllowlist`.
abbrev pub grouping_dimensions : List String
grouping_dimensions =
    "campaign_id" ∷ "network" ∷ "country" ∷ "cohort_date" ∷ "metric_date" ∷ "attribution_status"
    ∷ "apple_conversion_bucket" ∷ []

abbrev pub grouping_key : String → String
grouping_key dimension = String.◌++◌ "grouping_" dimension

abbrev pub transport_keys : List String
transport_keys =
    "app_id"
    ∷ "metric_name"
    ∷ "metric_definition_version"
    ∷ "date_from"
    ∷ "date_to"
    ∷ "watermark_at_most"
    ∷ "difference_reason_code"
    ∷ "supersession"
    ∷ "limit"
    ∷ "after"
    ∷ "format"
    ∷ "export"
    ∷ map grouping_key grouping_dimensions

abbrev pub is_lower : ℕ → Bool
is_lower c = within b'a' b'z' c

abbrev pub is_upper : ℕ → Bool
is_upper c = within b'A' b'Z' c

abbrev pub is_digit : ℕ → Bool
is_digit c = within b'0' b'9' c

abbrev pub is_name_rest : List ℕ → Bool
is_name_rest cs = all (λ c. is_lower c || is_digit c || c == b'_') cs && within 2 127 (length cs)

abbrev is_name : List ℕ → Bool
is_name [] = false
is_name (c ∷ cs) = is_lower c && is_name_rest cs

-- `metricNamePattern` and `differenceReasonPattern`, /^[a-z][a-z0-9_]{2,127}$/.
abbrev pub is_metric_name : String → Bool
is_metric_name value = is_name (codes value)

-- `identifierPattern`, /^[A-Za-z0-9._:-]{1,128}$/.
abbrev pub is_identifier : String → Bool
is_identifier value =
    all
      (λ c.
        is_upper c || is_lower c || is_digit c || c == b'.' || c == b'_' || c == b':' || c == b'-')
      (codes value)
    && within 1 128 (length (codes value))

-- `digestPattern`, /^[0-9a-f]{64}$/.
abbrev pub is_digest : String → Bool
is_digest value =
    all (λ c. is_digit c || within b'a' b'f' c) (codes value) && (length (codes value) == 64)

-- Whether a text has the form of another one, in which 0 stands for any digit.
abbrev has_form : List ℕ → List ℕ → Bool
has_form [] [] = true
has_form (f ∷ fs) (c ∷ cs) = (if f == b'0' then is_digit c else c == f) && has_form fs cs
has_form _ _ = false

-- `canonicalDate`: a text of the form stands for a `Date` that prints it back exactly if the text of
-- its midnight is a timestamp.
unfoldable pub canonical_date : String → Bool
unfolding to_instant
canonical_date value =
    has_form (codes "0000-00-00") (codes value)
    && is_some (to_instant (String.◌++◌ value "T00:00:00.000Z"))

unfoldable pub canonical_timestamp : String → Bool
unfolding to_instant
canonical_timestamp value =
    has_form (codes "0000-00-00T00:00:00.000Z") (codes value) && is_some (to_instant value)

abbrev pub is_country : String → Bool
is_country value = all is_upper (codes value) && (length (codes value) == 2)

abbrev pub is_attribution_status : String → Bool
is_attribution_status value =
    any (λ s. str_eq s value) ("organic" ∷ "non_organic" ∷ "unattributed" ∷ [])

-- ([0-9]|[1-5][0-9]|6[0-3])
abbrev is_fine : List ℕ → Bool
is_fine (a ∷ []) = is_digit a
is_fine (a ∷ b ∷ []) = (within b'1' b'5' a && is_digit b) || (a == b'6' && within b'0' b'3' b)
is_fine _ = false

abbrev is_some_fine : Option String → Bool
is_some_fine none = false
is_some_fine (some rest) = is_fine (codes rest)

-- /^(fine:([0-9]|[1-5][0-9]|6[0-3])|coarse:(low|medium|high))$/
abbrev pub is_conversion_bucket : String → Bool
is_conversion_bucket value =
    is_some_fine (strip_prefix "fine:" value)
    || any (λ s. str_eq s value) ("coarse:low" ∷ "coarse:medium" ∷ "coarse:high" ∷ [])

-- The test of `validateGrouping`.
abbrev pub is_grouping_value : String → String → Bool
is_grouping_value dimension value =
    if str_eq dimension "country"
    then is_country value
    else if str_eq dimension "cohort_date" || str_eq dimension "metric_date"
    then canonical_date value
    else if str_eq dimension "attribution_status"
    then is_attribution_status value
    else if str_eq dimension "apple_conversion_bucket"
    then is_conversion_bucket value
    else is_identifier value
