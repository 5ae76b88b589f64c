-- ===== src/Instant/Dates.antt =====
-- `dateAt` of packages/attribution-core/src/evaluator.ts: the calendar date of an instant in a time zone,
-- as `toISOString().slice(0, 10)` writes it. A year outside 0 to 9999 has a sign and six digits, so that
-- its first ten characters end with the month.
pub mod Laws
use open_mmp.Common.{
  ℕ, zero, suc, ◌+◌, ◌-◌, ◌*◌, ◌/◌, ◌%◌, Bool, ◌&&◌, List, [], ◌∷◌, ◌++◌, ltb, leb, if◌then◌else◌,
}
use open_mmp.Instant.{
  year_zero, is_leap, month_length, days_to_month, days_to_year, epoch_day, reach, day_ms,
}

pub record Civil : Type 0 where
  pub year : ℕ  -- from `year_zero`
  pub month : ℕ
  pub day : ℕ

-- The number of an instant's day, counted as `day_number` does.
abbrev pub day_of : ℕ → ℕ
day_of t = t / day_ms + (epoch_day - reach)

-- The year of a day: at most two after the quotient by the mean length of a year.
unfoldable pub year_of : ℕ → ℕ
unfolding days_to_year
year_of n =
    let y = n * 400 / 146097 in
    if leb (days_to_year (y + 2)) n
    then y + 2
    else if leb (days_to_year (y + 1)) n
    then y + 1
    else y

-- The month of the n-th day of a year, and what is left of n, with so many months to go.
unfoldable pub month_from : Bool → ℕ → ℕ → ℕ → ℕ × ℕ
unfolding month_length
month_from leap zero m n = (m, n)
month_from leap (suc left) m n =
    let later = month_from leap left (suc m) (n - month_length leap m) in
    if ltb n (month_length leap m) then (m, n) else later

unfoldable pub civil_of : ℕ → Civil
unfolding is_leap days_to_year year_of month_from
civil_of n =
    let year = year_of n in
    let (month, rest) = month_from (is_leap year) 11 1 (n - days_to_year year) in
    record { year = year; month = month; day = rest + 1 }

abbrev pub digits : ℕ → ℕ → List ℕ
digits zero n = []
digits (suc k) n = digits k (n / 10) ++ (48 + n % 10) ∷ []

abbrev pub year_text : ℕ → List ℕ
year_text y =
    if ltb y year_zero
    then 45 ∷ digits 6 (year_zero - y)
    else if ltb y (year_zero + 10000)
    then digits 4 (y - year_zero)
    else 43 ∷ digits 6 (y - year_zero)

abbrev pub has_four_digits : ℕ → Bool
has_four_digits y = leb year_zero y && ltb y (year_zero + 10000)

unfoldable pub date_text : Civil → List ℕ
date_text c =
    if has_four_digits c.year
    then digits 4 (c.year - year_zero) ++ 45 ∷ (digits 2 c.month ++ 45 ∷ digits 2 c.day)
    else year_text c.year ++ 45 ∷ digits 2 c.month
