-- ===== src/Instant.antt =====
-- The timestamps of packages/attribution-core/src/evaluator.ts (`time`) and of
-- packages/fraud-rules/src/index.ts (`instant`): a text is one exactly if
-- `new Date(text).toISOString()` gives it back, which leaves the form YYYY-MM-DDTHH:mm:ss.sssZ, with
-- a sign and six digits for a year outside 0 to 9999. An instant is the number of milliseconds since
-- the earliest `Date`, -8.64e15: all that the code does with two instants is to compare them or
-- their difference, and neither depends on where the count starts.
pub mod Range
pub mod Dates
mod Tests
use Prim.Native.Char.{code}
use Prim.Native.String
use open_mmp.Common.{
  ℕ, zero, suc, ◌+◌, ◌-◌, ◌*◌, ◌/◌, ◌%◌, Bool, true, false, not, ◌&&◌, ◌||◌, List, [], ◌∷◌, Option,
  none, some, String, ltb, leb, ◌==◌, if◌then◌else◌,
}

-- The code points of a text: they are its code units where the text fits the form.
abbrev pub codes : String → List ℕ
codes String.[] = []
codes (String.◌∷◌ c s) = code c ∷ codes s

infixl 5 ◌>>=◌
abbrev ◌>>=◌ {ℓ κ} : {A : Type ℓ} {B : Type κ} → Option A → (A → Option B) → Option B
none >>= f = none
some a >>= f = f a

-- Reads so many digits.
take_digits : ℕ → ℕ → List ℕ → Option (ℕ × List ℕ)
take_digits zero acc cs = some (acc, cs)
take_digits (suc n) acc [] = none
take_digits (suc n) acc (c ∷ cs) =
    let rest = take_digits n (acc * 10 + (c - b'0')) cs in
    if leb b'0' c && leb c b'9' then rest else none

take_char : ℕ → List ℕ → Option (List ℕ)
take_char d [] = none
take_char d (c ∷ cs) = if c == d then some cs else none

-- Reads a separator and so many digits.
take_field : ℕ → ℕ → List ℕ → Option (ℕ × List ℕ)
unfolding take_digits take_char
take_field separator n cs = do rest ← take_char separator cs; take_digits n 0 rest

-- The year that a text begins with, counted from 400000 before year 0.
abbrev year_zero : ℕ
year_zero = 400000

abbrev shift_year : (ℕ → Bool) → (ℕ → ℕ) → ℕ × List ℕ → Option (ℕ × List ℕ)
shift_year fits shift (y, cs) = if fits y then some (shift y, cs) else none

take_year : List ℕ → Option (ℕ × List ℕ)
unfolding take_digits
take_year [] = none
take_year (c ∷ cs) =
    if c == b'+'
    then (take_digits 6 0 cs >>= shift_year (λ y. leb 10000 y) (λ y. year_zero + y))
    else if c == b'-'
    then (take_digits 6 0 cs >>= shift_year (λ y. ltb 0 y && ltb y year_zero) (λ y. year_zero - y))
    else (take_digits 4 0 (c ∷ cs) >>= shift_year (λ y. true) (λ y. year_zero + y))

-- The proleptic Gregorian calendar.
is_leap : ℕ → Bool
is_leap y = y % 4 == 0 && (not (y % 100 == 0) || y % 400 == 0)

month_length : Bool → ℕ → ℕ
month_length leap m =
    if m == 2
    then (if leap then 29 else 28)
    else if m == 4 || m == 6 || m == 9 || m == 11
    then 30
    else 31

-- The days of the months 1 to m.
days_to_month : Bool → ℕ → ℕ
unfolding month_length
days_to_month leap zero = 0
days_to_month leap (suc m) = days_to_month leap m + month_length leap (suc m)

-- The days of the years from 1 to before y, for y at least 1.
days_to_year : ℕ → ℕ
days_to_year y = 365 * (y - 1) + (y - 1) / 4 - (y - 1) / 100 + (y - 1) / 400

pub record Fields : Type 0 where
  pub year : ℕ  -- from `year_zero`
  pub month : ℕ
  pub day : ℕ
  pub hour : ℕ
  pub minute : ℕ
  pub second : ℕ
  pub millisecond : ℕ

abbrev fields : (year month day hour minute second millisecond : ℕ) → Fields
fields year month day hour minute second millisecond = record {
  year = year;
  month = month;
  day = day;
  hour = hour;
  minute = minute;
  second = second;
  millisecond = millisecond;
}

is_calendar : Fields → Bool
unfolding is_leap month_length
is_calendar f =
    leb 1 f.month
    && leb f.month 12
    && leb 1 f.day
    && leb f.day (month_length (is_leap f.year) f.month)
    && ltb f.hour 24
    && ltb f.minute 60
    && ltb f.second 60

-- The day of 1970-01-01 and the greatest distance of a `Date` from it, in days.
abbrev epoch_day : ℕ
epoch_day = 146816162

abbrev pub reach : ℕ
reach = 100000000

abbrev pub day_ms : ℕ
day_ms = 86400000

day_number : Fields → ℕ
unfolding days_to_year days_to_month is_leap
day_number f = days_to_year f.year + days_to_month (is_leap f.year) (f.month - 1) + (f.day - 1)

time_of_day : Fields → ℕ
time_of_day f = f.hour * 3600000 + f.minute * 60000 + f.second * 1000 + f.millisecond

-- The instant of a calendar date and time, if a `Date` reaches it.
instant_of : Fields → Option ℕ
unfolding day_number time_of_day
instant_of f =
    let at = (day_number f + reach) * day_ms + time_of_day f in
    if leb (epoch_day * day_ms) at && leb at ((epoch_day + 2 * reach) * day_ms)
    then some (at - epoch_day * day_ms)
    else none

checked : Fields → List ℕ → Option ℕ
unfolding is_calendar instant_of
checked f [] = if is_calendar f then instant_of f else none
checked f (c ∷ cs) = none

parse : List ℕ → Option ℕ
unfolding take_year take_field take_char checked
parse cs = do
  (year, cs) ← take_year cs
  (month, cs) ← take_field b'-' 2 cs
  (day, cs) ← take_field b'-' 2 cs
  (hour, cs) ← take_field b'T' 2 cs
  (minute, cs) ← take_field b':' 2 cs
  (second, cs) ← take_field b':' 2 cs
  (millisecond, cs) ← take_field b'.' 3 cs
  cs ← take_char b'Z' cs
  checked (fields year month day hour minute second millisecond) cs

-- `new Date(value).getTime()` where `toISOString` gives `value` back.
unfoldable pub to_instant : String → Option ℕ
unfolding parse
to_instant value = parse (codes value)
