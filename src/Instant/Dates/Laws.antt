-- ===== src/Instant/Dates/Laws.antt =====
-- Days and their dates: two days in years of four digits are one if they have one date.
use open_mmp.Common.{
  ℕ, zero, suc, ◌+◌, ◌-◌, ◌*◌, ◌/◌, ◌%◌, ◌≤◌, ◌<◌, ◌≡◌, refl, sym, ap, ◌∙◌, arith, Bool, true,
  false, ltb, ltb→lt, List, [], ◌∷◌, inl, inr, Bool-cases, if◌then◌else◌,
}
use open_mmp.Instant.{year_zero, is_leap, month_length, days_to_month, days_to_year}
use open_mmp.Instant.Dates.{Civil, year_of, month_from, civil_of, has_four_digits, date_text}

days_to_year-bounds :
    (y : ℕ)
    → (146097 * y ≤ 400 * days_to_year (y + 1) + 699)
      × (400 * days_to_year (y + 1) ≤ 146097 * y + 396)
unfolding days_to_year
days_to_year-bounds y = omega arith

days_to_year-suc :
    (y : ℕ) → 1 ≤ y → days_to_year (y + 1) ≡ days_to_year y + 365 + (if is_leap y then 1 else 0)
unfolding days_to_year is_leap
days_to_year-suc y h = ground arith

-- The year of a day begins at it or before, and the next one after it.
year_of_range :
    (n : ℕ) → (1 ≤ year_of n) × (days_to_year (year_of n) ≤ n) × (n < days_to_year (year_of n + 1))
unfolding days_to_year year_of
year_of_range n =
    let y = n * 400 / 146097 in
    ground (arith, days_to_year-bounds (y - 1), days_to_year-bounds (y + 2))

days_to_month-twelve : (leap : Bool) → days_to_month leap 12 ≡ 365 + (if leap then 1 else 0)
unfolding days_to_month month_length
days_to_month-twelve true = refl
days_to_month-twelve false = refl

-- A month of the year, and a day of the month: together the day that the search began with.
abbrev IsFound : Bool → ℕ → ℕ → ℕ × ℕ → Type 0
IsFound leap m total (month, rest) =
    (days_to_month leap (month - 1) + rest ≡ total)
    × (suc m ≤ month)
    × (month ≤ 12)
    × (rest < month_length leap month)

days_to_month-suc :
    (leap : Bool) (m : ℕ)
    → days_to_month leap (suc m) ≡ days_to_month leap m + month_length leap (suc m)
unfolding days_to_month
days_to_month-suc leap m = refl

month_from-IsFound :
    (leap : Bool) (left m n : ℕ)
    → m + left ≡ 11
    → days_to_month leap m + n < days_to_month leap 12
    → IsFound leap m (days_to_month leap m + n) (month_from leap left (suc m) n)
unfolding month_from
month_from-IsFound leap zero m n e h =
    let last : m ≡ 11 = omega arith in
    let step = days_to_month-suc leap m in
    let whole = ap (λ k. days_to_month leap (suc k)) last in
    (
      ap (λ k. days_to_month leap k + n) (omega arith),
      omega arith,
      omega arith,
      omega (arith, whole),
    )
month_from-IsFound leap (suc left) m n e h =
    let step = days_to_month-suc leap m in
    let here : days_to_month leap (suc m - 1) + n ≡ days_to_month leap m + n =
      ap (λ k. days_to_month leap k + n) (omega arith) in
    elim (Bool-cases (ltb n (month_length leap (suc m)))) [
      | inl t ↦ rw t (here, omega arith, omega arith, ltb→lt n (month_length leap (suc m)) t)
      | inr t ↦
          let (sum, above, below, fits) =
            month_from-IsFound leap left (suc m) (n - month_length leap (suc m)) (omega arith)
              (ground arith) in
          rw t (ground (arith, sum), omega arith, below, fits)
    ]

month_length-le : (leap : Bool) (m : ℕ) → month_length leap m ≤ 31
unfolding month_length
month_length-le leap m = ground arith

-- The day of a date.
abbrev day_number_of : Civil → ℕ
day_number_of c = days_to_year c.year + days_to_month (is_leap c.year) (c.month - 1) + (c.day - 1)

record IsDateOf (n : ℕ) (c : Civil) : Type 0 where
  counted : day_number_of c ≡ n
  month_fits : c.month ≤ 12
  day_fits : c.day ≤ 31
  day_from_one : 1 ≤ c.day

civil_of-IsDateOf : (n : ℕ) → IsDateOf n (civil_of n)
unfolding civil_of
civil_of-IsDateOf n =
    let (first, before, after) = year_of_range n in
    let leap = is_leap (year_of n) in
    let rest = n - days_to_year (year_of n) in
    let year = days_to_year-suc (year_of n) first in
    let whole = days_to_month-twelve leap in
    let none_before : days_to_month leap 0 ≡ 0 = unfold days_to_month in refl in
    let inside : days_to_month leap 0 + rest < days_to_month leap 12 =
      ground (arith, year, whole, none_before) in
    let (sum, above, below, fits) = month_from-IsFound leap 11 0 rest refl inside in
    let length = month_length-le leap (month_from leap 11 1 rest).0 in
    record {
      counted = omega (arith, sum, none_before);
      month_fits = below;
      day_fits = omega (arith, fits, length);
      day_from_one = omega arith;
    }

-- Reads the ten characters of a date in a year of four digits.
read_date : List ℕ → ℕ × ℕ × ℕ
read_date (a ∷ b ∷ c ∷ d ∷ e ∷ f ∷ g ∷ h ∷ i ∷ j ∷ []) = (
  ((a - 48) * 1000 + (b - 48) * 100 + (c - 48) * 10 + (d - 48)),
  (f - 48) * 10 + (g - 48),
  (i - 48) * 10 + (j - 48),
)
read_date _ = (0, 0, 0)

read_four :
    (n : ℕ)
    → n < 10000
    → (48 + n / 10 / 10 / 10 % 10 - 48) * 1000
        + (48 + n / 10 / 10 % 10 - 48) * 100
        + (48 + n / 10 % 10 - 48) * 10
        + (48 + n % 10 - 48)
      ≡ n
read_four n h = omega arith

four_digits : (y : ℕ) → has_four_digits y ≡ true → y - year_zero < 10000
four_digits y h = ground arith

two_digits : (n : ℕ) → n < 100 → (48 + n / 10 % 10 - 48) * 10 + (48 + n % 10 - 48) ≡ n
two_digits n h = omega arith

read_date-text :
    (c : Civil)
    → has_four_digits c.year ≡ true
    → c.month ≤ 12
    → c.day ≤ 31
    → read_date (date_text c) ≡ (c.year - year_zero, c.month, c.day)
unfolding read_date date_text
read_date-text c y m d =
    let fits = four_digits c.year y in
    let four = read_four (c.year - year_zero) fits in
    let month = two_digits c.month (omega arith) in
    let day = two_digits c.day (omega arith) in rw y λ i. (four i, month i, day i)

civil_of-year : (n : ℕ) → (civil_of n).year ≡ year_of n
unfolding civil_of
civil_of-year n = refl

-- Two days in years of four digits are one if their dates are.
pub date_text-injective :
    (m n : ℕ)
    → has_four_digits (year_of m) ≡ true
    → has_four_digits (year_of n) ≡ true
    → date_text (civil_of m) ≡ date_text (civil_of n)
    → m ≡ n
date_text-injective m n hm hn h =
    let a = civil_of-IsDateOf m in
    let b = civil_of-IsDateOf n in
    let hm' : has_four_digits (civil_of m).year ≡ true = rw (civil_of-year m) hm in
    let hn' : has_four_digits (civil_of n).year ≡ true = rw (civil_of-year n) hn in
    let p = read_date-text (civil_of m) hm' a.month_fits a.day_fits in
    let q = read_date-text (civil_of n) hn' b.month_fits b.day_fits in
    let e = sym p ∙ ap read_date h ∙ q in
    let years = ap (λ (x : ℕ × ℕ × ℕ). x.0) e in
    let months = ap (λ (x : ℕ × ℕ × ℕ). x.1) e in
    let days = ap (λ (x : ℕ × ℕ × ℕ). x.2) e in
    let same : (civil_of m).year ≡ (civil_of n).year = ground (arith, hm', hn', years) in
    let counts : day_number_of (civil_of m) ≡ day_number_of (civil_of n) =
      λ i. days_to_year (same i) + days_to_month (is_leap (same i)) (months i - 1) + (days i - 1) in
    sym a.counted ∙ counts ∙ b.counted

-- Such a day is before the year 10000.
pub four_digits_before : (n : ℕ) → has_four_digits (year_of n) ≡ true → n < 149749060
unfolding days_to_year
four_digits_before n h = let (first, before, after) = year_of_range n in ground (arith, after, h)
