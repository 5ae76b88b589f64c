-- ===== src/RateLimit/Bucket.antt =====
-- `TokenBucket` of apps/api/src/rate-limit.ts.
pub mod Laws
use open_mmp.Common.{
  ℕ, ◌+◌, ◌-◌, ◌*◌, min, Bool, true, false, ◌||◌, List, [], ◌∷◌, ltb, ◌==◌, if◌then◌else◌, Outcome,
  ok, throw,
}

pub data Error : Type 0 where
  rate_and_burst_must_be_positive : Error

pub record TokenBucket : Type 0 where
  pub rate_per_second : ℕ
  pub burst : ℕ
  pub tokens : ℕ  -- in thousandths
  pub updated_at : ℕ

-- One token, and so a full bucket, in thousandths.
abbrev pub token : ℕ
token = 1000

-- The constructor.
unfoldable pub new : ℕ → ℕ → ℕ → Outcome Error TokenBucket
new rate_per_second burst now =
    if rate_per_second == 0 || burst == 0
    then throw rate_and_burst_must_be_positive
    else ok (record {
      rate_per_second = rate_per_second;
      burst = burst;
      tokens = token * burst;
      updated_at = now;
    })

-- What `allow` does first: `-` stops at 0, as `Math.max(0, …)` does.
abbrev pub refill : TokenBucket → ℕ → TokenBucket
refill b now = record b {
  tokens = min (token * b.burst) (b.tokens + (now - b.updated_at) * b.rate_per_second);
  updated_at = now;
}

unfoldable pub allow : TokenBucket → ℕ → TokenBucket × Bool
allow b now =
    let c = refill b now in
    if ltb c.tokens token then (c, false) else (record c { tokens = c.tokens - token }, true)

-- A bucket asked at each of the times in turn: the bucket at the end and the requests let through.
unfoldable pub serve : TokenBucket → List ℕ → TokenBucket × ℕ
serve b [] = (b, 0)
serve b (now ∷ later) =
    let (c, passed) = allow b now in
    let (d, n) = serve c later in (d, (if passed then 1 else 0) + n)
