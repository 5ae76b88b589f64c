-- ===== src/RateLimit/Bucket/Laws.antt =====
-- What a token bucket lets through.
use native.Mathlib.Nat.{le_refl, le_trans}
use open_mmp.Common.{
  ℕ, ◌+◌, ◌-◌, ◌*◌, ◌≤◌, ◌≡◌, ◌<◌, true, List, [], ◌∷◌, arith, ok, if◌then◌else◌, refl, ap, ◌∙◌,
}
use open_mmp.RateLimit.Bucket.{TokenBucket, token, new, allow, serve}

-- A bucket never holds more than its burst.
pub record IsValid (b : TokenBucket) : Type 0 where
  pub positive_rate : 0 < b.rate_per_second
  pub positive_burst : 0 < b.burst
  pub within : b.tokens ≤ token * b.burst

pub new-IsValid : (rate burst now : ℕ) {b : TokenBucket} → new rate burst now ≡ ok b → IsValid b
unfolding new
new-IsValid rate burst now h = ground arith

pub allow-IsValid : {b : TokenBucket} (now : ℕ) → IsValid b → IsValid (allow b now).0
unfolding allow
allow-IsValid now v = ground arith

-- The times at which a bucket is asked do not run backwards from `start`; the last of them.
abbrev pub IsMonotone : ℕ → List ℕ → Type 0
IsMonotone start [] = Unit
IsMonotone start (now ∷ later) = (start ≤ now) × IsMonotone now later

abbrev pub last_time : ℕ → List ℕ → ℕ
last_time start [] = start
last_time start (now ∷ later) = last_time now later

-- What a request takes and what is left come from what was there and what the time added.
allow_pays :
    (b : TokenBucket) (now : ℕ)
    → token * (if (allow b now).1 then 1 else 0) + (allow b now).0.tokens
      ≤ b.tokens + (now - b.updated_at) * b.rate_per_second
unfolding allow
allow_pays b now = ground arith

allow_keeps :
    (b : TokenBucket) (now : ℕ)
    → ((allow b now).0.updated_at ≡ now)
      × ((allow b now).0.rate_per_second ≡ b.rate_per_second)
      × ((allow b now).0.burst ≡ b.burst)
unfolding allow
allow_keeps b now = ground arith

last_time-ge : (start : ℕ) (times : List ℕ) → IsMonotone start times → start ≤ last_time start times
last_time-ge start [] m = le_refl start
last_time-ge start (now ∷ later) (h, m) = le_trans h (last_time-ge now later m)

split_span :
    (start now last rate : ℕ)
    → start ≤ now
    → now ≤ last
    → (last - start) * rate ≡ (last - now) * rate + (now - start) * rate
split_span start now last rate h k =
    let e : last - start ≡ (last - now) + (now - start) = omega arith in
    omega (arith, ap (λ (n : ℕ). n * rate) e)

serve_pays :
    (b : TokenBucket) (times : List ℕ) (start rate : ℕ)
    → b.updated_at ≡ start
    → b.rate_per_second ≡ rate
    → IsMonotone start times
    → token * (serve b times).1 + (serve b times).0.tokens
      ≤ b.tokens + (last_time start times - start) * rate
unfolding serve
serve_pays b [] start rate e r m = ground arith
serve_pays b (now ∷ later) start rate e r (h, m) =
    let (at, same, _) = allow_keeps b now in
    let ih = serve_pays (allow b now).0 later now rate at (same ∙ r) m in
    let paid : token * (if (allow b now).1 then 1 else 0) + (allow b now).0.tokens
        ≤ b.tokens + (now - start) * rate =
      rw (← e, ← r) (allow_pays b now) in
    let span = split_span start now (last_time now later) rate h (last_time-ge now later m) in
    omega (arith, ih, paid, span)

-- However a valid bucket is asked, at times that do not run backwards, what it lets through costs
-- at most a full burst and what the time from its last update to the last request adds at the
-- rate (in thousandths of a token).
pub serve_bound :
    (b : TokenBucket) (times : List ℕ)
    → IsValid b
    → IsMonotone b.updated_at times
    → token * (serve b times).1
      ≤ token * b.burst + (last_time b.updated_at times - b.updated_at) * b.rate_per_second
serve_bound b times v m =
    omega (arith, serve_pays b times b.updated_at b.rate_per_second refl refl m, v.within)

-- A bucket that has waited long enough for one token lets the next request through, whatever it
-- was asked before.
pub allow_after_wait :
    (b : TokenBucket) (now : ℕ)
    → IsValid b
    → token ≤ (now - b.updated_at) * b.rate_per_second
    → (allow b now).1 ≡ true
unfolding allow
allow_after_wait b now v h = ground arith
