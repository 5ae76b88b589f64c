-- ===== src/Attribution/Metrics/Cohorts.antt =====
-- `dateAt`, `matchesGrouping` and `eligibleRevenue` of packages/attribution-core/src/evaluator.ts: what belongs to the
-- group and to the window of a metric. A date is the codes of its text.
pub mod Laws
use Prim.Native.String
use open_mmp.Common.{
  ℕ, ◌+◌, ◌-◌, ◌*◌, Bool, true, false, not, ◌&&◌, ◌||◌, List, [], ◌∷◌, Option, none, some, String,
  str_eq, opt_eq, is_some, ltb, leb, lookup, nat_eq, list_eq, if◌then◌else◌, Outcome, ok, throw,
  ◌>>=◌,
}
use open_mmp.Instant.{codes, day_ms}
use open_mmp.Instant.Range.{last_instant}
use open_mmp.Instant.Dates.{day_of, civil_of, date_text}
use open_mmp.Attribution.Types.{
  Payload, Server, Record, CandidateAttempt, ImportContext, DeepLinkResolution,
}
use open_mmp.Attribution.Errors.{Error, invalid_time_value, time}
use open_mmp.Attribution.Candidates.{CompositeKey, composite_key, key_eq}
use open_mmp.Attribution.Results.{Status, organic, non_organic, unattributed}
use open_mmp.Attribution.Metrics.Definitions.{
  TimeZone, utc, asia_tokyo, WindowType, calendar_day, MetricDefinition,
}

abbrev pub zone_offset : TimeZone → ℕ
zone_offset utc = 0
zone_offset asia_tokyo = 9 * 3600000

-- `toISOString` throws past the range of a `Date`; no instant here is before it.
abbrev pub checked_instant : ℕ → Outcome Error ℕ
checked_instant t = if leb t last_instant then ok t else throw invalid_time_value

abbrev pub local_date : TimeZone → ℕ → Outcome Error (List ℕ)
local_date zone t = do
  moved ← checked_instant (t + zone_offset zone)
  ok (date_text (civil_of (day_of moved)))

unfoldable pub date_at : String → TimeZone → String → Outcome Error (List ℕ)
date_at value zone field = do t ← time (some value) field; local_date zone t

abbrev pub same_date : List ℕ → List ℕ → Bool
same_date = (list_eq ⦃e = nat_eq⦄).beq

abbrev pub is_calendar_day : WindowType → Bool
is_calendar_day calendar_day = true
is_calendar_day _ = false

-- The text that `toISOString` gives for the moved install stands for the instant it was made of.
unfoldable pub eligible_revenue : MetricDefinition → Record → Record → Outcome Error Bool
unfolding date_at
eligible_revenue d install revenue =
    if is_calendar_day d.window_type
    then (do
      paid ← date_at revenue.occurred_at d.aggregation_time_zone "occurred_at"
      t ← time (some install.occurred_at) "occurred_at"
      moved ← checked_instant (t + d.window_day * day_ms)
      date ← local_date d.aggregation_time_zone moved
      ok (same_date paid date))
    else (do
      u ← time (some revenue.occurred_at) "occurred_at"
      t ← time (some install.occurred_at) "occurred_at"
      ok (leb t u && ltb (u - t) ((d.window_day + 1) * day_ms)))

pub record MetricGrouping : Type 0 where
  pub campaign_id : Option String
  pub network : Option String
  pub country : Option String
  pub cohort_date : Option String
  pub metric_date : Option String
  pub attribution_status : Option Status
  pub apple_conversion_bucket : Option String

abbrev pub Statuses : Type 0
Statuses = List (CompositeKey × Status)

abbrev pub status_eq : Status → Status → Bool
status_eq organic organic = true
status_eq non_organic non_organic = true
status_eq unattributed unattributed = true
status_eq _ _ = false

-- `a ?? b` between values that may both be missing.
abbrev pub else_option : Option String → Option String → Option String
else_option none b = b
else_option (some a) b = some a

abbrev pub of_import : Option ImportContext → (ImportContext → Option String) → Option String
of_import none f = none
of_import (some c) f = f c

abbrev pub of_link : Option DeepLinkResolution → Option String
of_link none = none
of_link (some l) = l.campaign_id

abbrev pub campaign : CandidateAttempt → Option String
campaign a = else_option a.event.payload.campaign_id (
    else_option (of_link a.server.deep_link_resolution)
      (of_import a.event.payload.import_context λ c. c.provider_campaign_ref))

abbrev pub network_of : CandidateAttempt → Option String
network_of a = else_option a.event.payload.network (
    else_option a.event.payload.ad_network
      (of_import a.event.payload.import_context λ c. c.provider_network))

abbrev pub country_of : CandidateAttempt → Option String
country_of a =
    else_option a.event.payload.country
      (of_import a.event.payload.import_context λ c. c.provider_country)

-- `asked !== undefined && actual !== asked`, negated.
abbrev pub agrees : Option String → Option String → Bool
agrees none actual = true
agrees (some asked) actual = opt_eq actual (some asked)

abbrev pub is_install_event : CandidateAttempt → Bool
is_install_event a = str_eq a.event.event_name "install"

abbrev pub has_status : CandidateAttempt → Bool
has_status a = is_install_event a || str_eq a.event.event_name "deep_link_open"

abbrev pub subject_key : CandidateAttempt → CompositeKey
subject_key a = composite_key (
    some a.server.tenant_id
    ∷ some a.server.app_id
    ∷ (if is_install_event a
        then a.event.payload.installation_id
        else some (String.◌++◌ "engagement:" a.event.record_id))
    ∷ [])

abbrev pub is_status : Option Status → Status → Bool
is_status none asked = false
is_status (some s) asked = status_eq s asked

abbrev pub agrees_on_date : CandidateAttempt → Option String → Outcome Error Bool
agrees_on_date a none = ok true
agrees_on_date a (some date) =
    if is_install_event a
    then (do
      actual ← date_at a.event.occurred_at utc "occurred_at"
      ok (same_date actual (codes date)))
    else ok true

abbrev pub agrees_on_status : Statuses → CandidateAttempt → Option Status → Bool
agrees_on_status statuses a none = true
agrees_on_status statuses a (some asked) =
    if has_status a then is_status (lookup ⦃e = key_eq⦄ (subject_key a) statuses) asked else true

unfoldable pub matches_grouping :
    Statuses → Option MetricGrouping → CandidateAttempt → Outcome Error Bool
unfolding date_at
matches_grouping statuses none a = ok true
matches_grouping statuses (some g) a =
    if not (agrees g.campaign_id (campaign a))
    then ok false
    else if not (agrees g.network (network_of a))
    then ok false
    else if not (agrees g.country (country_of a))
    then ok false
    else (do
      on_date ← agrees_on_date a g.cohort_date
      ok (if on_date then agrees_on_status statuses a g.attribution_status else false))
