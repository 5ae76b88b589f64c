-- ===== src/Attribution/Metrics/Cohorts/Laws.antt =====
-- Which revenue belongs to the window of a metric.
use open_mmp.Common.{
  ℕ, ◌+◌, ◌-◌, ◌*◌, ◌≤◌, ◌<◌, ◌≡◌, ◌↔◌, refl, sym, ap, ◌∙◌, Bool, true, ◌&&◌, List, some, String,
  if◌then◌else◌, ltb, leb, arith, Outcome, ok, throw, nat_eq, list_beq_iff,
}
use open_mmp.Instant.{day_ms}
use open_mmp.Instant.Range.{last_instant}
use open_mmp.Instant.Dates.{day_of, year_of, civil_of, has_four_digits, date_text}
use open_mmp.Instant.Dates.Laws.{date_text-injective, four_digits_before}
use open_mmp.Attribution.Types.{Record}
use open_mmp.Attribution.Errors.{Error, time}
use open_mmp.Attribution.Metrics.Definitions.{
  TimeZone, WindowType, elapsed, calendar_day, activity_day, MetricDefinition,
}
use open_mmp.Attribution.Metrics.Cohorts.{
  is_calendar_day, zone_offset, local_date, date_at, same_date, eligible_revenue,
}

-- The day of an instant in a zone.
abbrev pub local_day : TimeZone → ℕ → ℕ
local_day zone t = day_of (t + zone_offset zone)

-- The year of that day is written in four digits.
abbrev pub HasFourDigits : TimeZone → ℕ → Type 0
HasFourDigits zone t = has_four_digits (year_of (local_day zone t)) ≡ true

abbrev pub InWindow : MetricDefinition → ℕ → ℕ → Type 0
InWindow d t u =
    if is_calendar_day d.window_type
    then local_day d.aggregation_time_zone u ≡ local_day d.aggregation_time_zone t + d.window_day
    else (t ≤ u) × (u < t + (d.window_day + 1) * day_ms)

four_digits-le :
    (zone : TimeZone) (t : ℕ) → HasFourDigits zone t → t + zone_offset zone ≤ last_instant
four_digits-le zone t h = omega (arith, four_digits_before (local_day zone t) h)

local_date-eq :
    (zone : TimeZone) (t : ℕ)
    → HasFourDigits zone t
    → local_date zone t ≡ ok (date_text (civil_of (local_day zone t)))
local_date-eq zone t h = ground (arith, four_digits-le zone t h)

same_date_iff : (xs ys : List ℕ) → (same_date xs ys ≡ true) ↔ (xs ≡ ys)
same_date_iff xs ys = list_beq_iff nat_eq xs ys

date_at-eq :
    (value field : String) (zone : TimeZone) {t : ℕ}
    → time (some value) field ≡ ok t
    → HasFourDigits zone t
    → date_at value zone field ≡ ok (date_text (civil_of (local_day zone t)))
unfolding date_at
date_at-eq value field zone {t} h f = rw h (local_date-eq zone t f)

local_day-later :
    (zone : TimeZone) (t k : ℕ) → local_day zone (t + k * day_ms) ≡ local_day zone t + k
local_day-later zone t k = omega arith

-- Two days of four-digit years have one text exactly if they are one.
date_text_iff :
    (m n : ℕ)
    → has_four_digits (year_of m) ≡ true
    → has_four_digits (year_of n) ≡ true
    → (same_date (date_text (civil_of m)) (date_text (civil_of n)) ≡ true) ↔ (m ≡ n)
date_text_iff m n hm hn =
    let (to, from) = same_date_iff (date_text (civil_of m)) (date_text (civil_of n)) in
    (λ h. date_text-injective m n hm hn (to h), λ e. from (ap (λ k. date_text (civil_of k)) e))

eligible-calendar :
    (d : MetricDefinition) (install revenue : Record) {t u : ℕ}
    → d.window_type ≡ calendar_day
    → time (some install.occurred_at) "occurred_at" ≡ ok t
    → time (some revenue.occurred_at) "occurred_at" ≡ ok u
    → HasFourDigits d.aggregation_time_zone u
    → HasFourDigits d.aggregation_time_zone (t + d.window_day * day_ms)
    → eligible_revenue d install revenue
      ≡ ok (
          same_date
            (date_text (civil_of (local_day d.aggregation_time_zone u)))
            (date_text (civil_of (local_day d.aggregation_time_zone (t + d.window_day * day_ms)))))
unfolding eligible_revenue
eligible-calendar d install revenue {t} {u} w ht hu fu ft =
    let paid = date_at-eq revenue.occurred_at "occurred_at" d.aggregation_time_zone hu fu in
    let moved = four_digits-le d.aggregation_time_zone (t + d.window_day * day_ms) ft in
    let inside : leb (t + d.window_day * day_ms) last_instant ≡ true = ground (arith, moved) in
    rw (w, paid, ht, inside, local_date-eq d.aggregation_time_zone (t + d.window_day * day_ms) ft)
      refl

-- Along two equivalences.
iff_trans {ℓ κ μ} : {A : Type ℓ} {B : Type κ} {C : Type μ} → A ↔ B → B ↔ C → A ↔ C
iff_trans (f, g) (h, k) = (λ a. h (f a), λ c. g (k c))

ok_iff : (b : Bool) → (◌≡◌ {A = Outcome Error Bool} (ok b) (ok true)) ↔ (b ≡ true)
ok_iff b = (λ h. ap (λ o. elim o [ ok c ↦ c | throw e ↦ b ]) h, λ e. ap ok e)

elapsed_iff : (t u k : ℕ) → ((leb t u && ltb (u - t) k) ≡ true) ↔ ((t ≤ u) × (u < t + k))
elapsed_iff t u k = (λ h. (ground arith, ground arith), λ (p, q). ground arith)

-- The revenue of an install belongs to the window of a metric exactly if: for a window of elapsed time, it is not before
-- the install and less than so many days and one after it; for a window of a calendar day, its day in the time zone of
-- the metric is so many days after that of the install. The times are timestamps, and for a window of a calendar day the day of the
-- revenue and the day that is compared with it are in years of four digits.
pub eligible_revenue_iff :
    (d : MetricDefinition) (install revenue : Record) {t u : ℕ}
    → time (some install.occurred_at) "occurred_at" ≡ ok t
    → time (some revenue.occurred_at) "occurred_at" ≡ ok u
    → (d.window_type ≡ calendar_day
        → HasFourDigits d.aggregation_time_zone u
          × HasFourDigits d.aggregation_time_zone (t + d.window_day * day_ms))
    → (eligible_revenue d install revenue ≡ ok true) ↔ InWindow d t u
unfolding eligible_revenue
eligible_revenue_iff d install revenue {t} {u} ht hu digits = by_type d.window_type refl
  where
    by_type :
        (w : WindowType)
        → d.window_type ≡ w
        → (eligible_revenue d install revenue ≡ ok true) ↔ InWindow d t u
    by_type elapsed w =
        rw (w, ht, hu) (iff_trans (ok_iff _) (elapsed_iff t u ((d.window_day + 1) * day_ms)))
    by_type activity_day w =
        rw (w, ht, hu) (iff_trans (ok_iff _) (elapsed_iff t u ((d.window_day + 1) * day_ms)))
    by_type calendar_day w =
        let (fu, ft) = digits w in
        let later = local_day-later d.aggregation_time_zone t d.window_day in
        let (to, from) =
          date_text_iff (local_day d.aggregation_time_zone u)
            (local_day d.aggregation_time_zone (t + d.window_day * day_ms)) fu ft in
        let e = eligible-calendar d install revenue w ht hu fu ft in
        (
          λ h. rw w (to ((ok_iff _).0 (sym e ∙ h)) ∙ later),
          λ h. e ∙ (ok_iff _).1 (from ((rw w at h) ∙ sym later)),
        )
