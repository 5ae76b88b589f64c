-- ===== src/RateLimit/Tests.antt =====
-- Runs of the limiters, and their theorems at a bucket of two tokens at one token per second.
use open_mmp.Common.{
  ◌+◌, ◌-◌, ◌*◌, ◌≤◌, ◌≡◌, ◌⊎◌, refl, true, [], ◌∷◌, none, some, ok, arith, length, lookup,
  string_eq, eq_iff,
}
use open_mmp.RateLimit.Bucket
use open_mmp.RateLimit.Bucket.{TokenBucket, serve, token}
use open_mmp.RateLimit.Bucket.Laws.{serve_bound, allow_after_wait}
use open_mmp.RateLimit.Bucket.Laws.{IsValid as IsValidBucket}
use open_mmp.RateLimit.Keyed.{BucketEntry, KeyedTokenBucket, expire, oldest, make_room, is_idle}
use open_mmp.RateLimit.Keyed
use open_mmp.RateLimit.Keyed.Laws.{IsValid, keyed-allow-IsValid}
use open_mmp.RateLimit.Keyed.Laws.Room.{IsOldest}
use open_mmp.RateLimit.Keyed.Isolation.{allow_elsewhere, allow_own}

limiting : Unit {0}
unfolding Bucket.new Bucket.allow serve Keyed.allow expire oldest make_room
limiting = tt

abbrev two_tokens : TokenBucket
two_tokens = record { rate_per_second = 1; burst = 2; tokens = 2000; updated_at = 1000 }

two_tokens-IsValid : IsValidBucket two_tokens
two_tokens-IsValid = record {
  positive_rate = omega arith;
  positive_burst = omega arith;
  within = omega arith;
}

-- Two of three requests in one second pass, and the next a second later.
serve_tests : (serve two_tokens (1000 ∷ 1000 ∷ 1500 ∷ [])).1 ≡ 2
unfolding limiting
serve_tests = refl

serve_bound_example : token * 3 ≤ token * 2 + (2500 - 1000) * 1
unfolding limiting
serve_bound_example =
    serve_bound two_tokens (1000 ∷ 1000 ∷ 1500 ∷ 2500 ∷ []) two_tokens-IsValid
      (omega arith, (omega arith, (omega arith, (omega arith, tt))))

abbrev drained : TokenBucket
drained = record two_tokens { tokens = 0 }

drained-IsValid : IsValidBucket drained
drained-IsValid = record {
  positive_rate = omega arith;
  positive_burst = omega arith;
  within = omega arith;
}

allow_after_wait_example : (Bucket.allow drained 2000).1 ≡ true
allow_after_wait_example = allow_after_wait drained 2000 drained-IsValid (omega arith)

abbrev ann_entry : BucketEntry
ann_entry = record { bucket = two_tokens; last_seen_at = 1000 }

-- One key of at most one, with a time to live of ten seconds.
abbrev full : KeyedTokenBucket
full = record {
  entries = ("ann", ann_entry) ∷ [];
  rate_per_second = 1;
  burst = 2;
  maximum_keys = 1;
  idle_ttl_ms = 10000;
}

full-IsValid : IsValid full
full-IsValid = record {
  some_keys = omega arith;
  bounded = omega arith;
  distinct = (refl, tt);
  buckets = (two_tokens-IsValid, tt);
}

keyed-allow-IsValid_example : IsValid (Keyed.allow full "bob" 3000).0
keyed-allow-IsValid_example = keyed-allow-IsValid full "bob" 3000 full-IsValid

-- A new key drops the only other one.
eviction_tests :
    ((Keyed.allow full "bob" 3000).1 ≡ ok true)
    × (lookup "ann" (Keyed.allow full "bob" 3000).0.entries ≡ none)
unfolding limiting
eviction_tests = (refl, refl)

allow_elsewhere_example :
    (lookup "ann" (Keyed.allow full "bob" 3000).0.entries ≡ some ann_entry)
    ⊎ ((is_idle 10000 3000 ann_entry ≡ true)
        ⊎ ((lookup "bob" (expire 10000 3000 full.entries) ≡ none)
            × (1 ≤ length (expire 10000 3000 full.entries))
            × IsOldest ann_entry (expire 10000 3000 full.entries)))
allow_elsewhere_example =
    allow_elsewhere full "bob" 3000 full-IsValid "ann" ann_entry
      (λ e. cc ((eq_iff "bob" "ann").1 e)) refl

allow_own_example :
    ((Keyed.allow full "ann" 3000).1 ≡ ok (Bucket.allow two_tokens 3000).1)
    × (lookup "ann" (Keyed.allow full "ann" 3000).0.entries
        ≡ some (record { bucket = (Bucket.allow two_tokens 3000).0; last_seen_at = 3000 }))
allow_own_example = allow_own full "ann" 3000 full-IsValid ann_entry refl refl
