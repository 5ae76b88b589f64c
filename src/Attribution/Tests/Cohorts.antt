-- ===== src/Attribution/Tests/Cohorts.antt =====
-- Dates of instants, and the windows of metrics on sample records.
use open_mmp.Common.{◌≡◌, ◌↔◌, refl, true, false, ok}
use open_mmp.Instant.{codes, to_instant}
use open_mmp.Instant.Dates.{year_of, civil_of, date_text}
use open_mmp.Attribution.Types.{Record}
use open_mmp.Attribution.Errors.{time}
use open_mmp.Attribution.Metrics.Definitions.{
  MetricDefinition, utc, asia_tokyo, elapsed, calendar_day, revenue_definition,
}
use open_mmp.Attribution.Metrics.Cohorts.{date_at, eligible_revenue}
use open_mmp.Attribution.Metrics.Cohorts.Laws.{InWindow, eligible_revenue_iff}
use open_mmp.Attribution.Tests.Samples.{install}

abbrev revenue : Record
revenue = record install.event {
  event_name = "ad_revenue";
  occurred_at = "2026-08-20T16:00:00.000Z";
}

date_tests :
    (date_at "2026-08-20T16:00:00.000Z" utc "occurred_at" ≡ ok (codes "2026-08-20"))
    × (date_at "2026-08-20T16:00:00.000Z" asia_tokyo "occurred_at" ≡ ok (codes "2026-08-21"))
    × (date_at "2024-02-29T14:59:59.999Z" asia_tokyo "occurred_at" ≡ ok (codes "2024-02-29"))
    × (date_at "2023-12-31T15:00:00.000Z" asia_tokyo "occurred_at" ≡ ok (codes "2024-01-01"))
    × (date_at "-000001-01-01T00:00:00.000Z" utc "occurred_at" ≡ ok (codes "-000001-01"))
unfolding date_at time to_instant civil_of date_text
date_tests = (refl, refl, refl, refl, refl)

abbrev in_tokyo : MetricDefinition
in_tokyo = revenue_definition "d0_jst_install_calendar_ad_revenue_usd" asia_tokyo calendar_day

eligible_tests :
    (eligible_revenue in_tokyo install.event revenue ≡ ok false)
    × (eligible_revenue (record in_tokyo { window_day = 1 }) install.event revenue ≡ ok true)
    × (eligible_revenue (record in_tokyo { window_type = elapsed }) install.event revenue ≡ ok true)
unfolding eligible_revenue time to_instant civil_of date_text
eligible_tests = (refl, refl, refl)

eligible_revenue_iff_example :
    (eligible_revenue (record in_tokyo { window_day = 1 }) install.event revenue ≡ ok true)
    ↔ InWindow (record in_tokyo { window_day = 1 }) 8641787227200000 8641787241600000
unfolding time to_instant year_of
eligible_revenue_iff_example =
    eligible_revenue_iff (record in_tokyo { window_day = 1 }) install.event revenue refl refl
      (λ _. (refl, refl))
