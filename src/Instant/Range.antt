-- ===== src/Instant/Range.antt =====
-- The instants that a text can stand for.
use open_mmp.Common.{
  ℕ, ◌*◌, ◌≤◌, ◌≡◌, List, [], ◌∷◌, Option, none, some, String, arith, ◌+◌, ◌&&◌, leb, Bool-cases,
  inl, inr,
}
use open_mmp.Instant.{
  ◌>>=◌, codes, parse, checked, instant_of, to_instant, reach, day_ms, epoch_day, Fields, fields,
  is_calendar, day_number, time_of_day, take_year, take_field, take_char,
}

-- The end of the range of a `Date`.
abbrev pub last_instant : ℕ
last_instant = 2 * reach * day_ms

-- A predicate that an absent value meets.
abbrev InRange : Option ℕ → Type 0
InRange none = Unit
InRange (some t) = t ≤ last_instant

bind-InRange :
    {A : Type 0} (m : Option A) (f : A → Option ℕ) → ((a : A) → InRange (f a)) → InRange (m >>= f)
bind-InRange none f h = tt
bind-InRange (some a) f h = h a

checked-InRange : (f : Fields) (cs : List ℕ) → InRange (checked f cs)
unfolding checked instant_of
checked-InRange f (c ∷ cs) = tt
checked-InRange f [] = elim (Bool-cases (is_calendar f)) [
  | inr e ↦ rw e tt
  | inl e ↦
      let at = (day_number f + reach) * day_ms + time_of_day f in
      elim (Bool-cases (leb (epoch_day * day_ms) at && leb at ((epoch_day + 2 * reach) * day_ms))) [
        | inr r ↦ rw (e, r) tt
        | inl r ↦ rw (e, r) (ground arith)
      ]
]

parse-InRange : (cs : List ℕ) → InRange (parse cs)
unfolding parse
parse-InRange cs = bind-InRange (take_year cs) _ λ (year, c₁).
    bind-InRange (take_field b'-' 2 c₁) _ λ (month, c₂).
      bind-InRange (take_field b'-' 2 c₂) _ λ (day, c₃).
        bind-InRange (take_field b'T' 2 c₃) _ λ (hour, c₄).
          bind-InRange (take_field b':' 2 c₄) _ λ (minute, c₅).
            bind-InRange (take_field b':' 2 c₅) _ λ (second, c₆).
              bind-InRange (take_field b'.' 3 c₆) _ λ (millisecond, c₇).
                bind-InRange (take_char b'Z' c₇) _
                  λ c₈. checked-InRange (fields year month day hour minute second millisecond) c₈

-- Every text that is a timestamp stands for an instant that a `Date` reaches.
pub to_instant-le : (value : String) {t : ℕ} → to_instant value ≡ some t → t ≤ last_instant
unfolding to_instant
to_instant-le value h = rw h at (parse-InRange (codes value))
