-- ===== src/RateLimit/Keyed.antt =====
-- `KeyedTokenBucket` of apps/api/src/rate-limit.ts. The map of buckets is an association list in
-- the order of insertion; the constructor's defaults are arguments.
pub mod Laws
pub mod Isolation
use open_mmp.Common.{
  ℕ, ◌-◌, Bool, true, false, not, ◌||◌, List, [], ◌∷◌, Option, none, some, String, ltb, leb, ◌==◌,
  if◌then◌else◌, ok, throw, Outcome, length, filter, lookup, insert, remove, string_eq,
}
use open_mmp.RateLimit.Bucket
use open_mmp.RateLimit.Bucket.{TokenBucket, Error}

pub record BucketEntry : Type 0 where
  pub bucket : TokenBucket
  pub last_seen_at : ℕ

abbrev pub Entries : Type 0
Entries = List (String × BucketEntry)

pub record KeyedTokenBucket : Type 0 where
  pub entries : Entries
  pub rate_per_second : ℕ
  pub burst : ℕ
  pub maximum_keys : ℕ
  pub idle_ttl_ms : ℕ

pub data ConfigError : Type 0 where
  bounds_must_be_positive : ConfigError

-- The constructor.
unfoldable pub new : ℕ → ℕ → ℕ → ℕ → Outcome ConfigError KeyedTokenBucket
new rate_per_second burst maximum_keys idle_ttl_ms =
    if maximum_keys == 0 || idle_ttl_ms == 0
    then throw bounds_must_be_positive
    else ok (record {
      entries = [];
      rate_per_second = rate_per_second;
      burst = burst;
      maximum_keys = maximum_keys;
      idle_ttl_ms = idle_ttl_ms;
    })

-- An entry that has been idle for the time to live.
abbrev pub is_idle : ℕ → ℕ → BucketEntry → Bool
is_idle ttl now entry = leb ttl (now - entry.last_seen_at)

-- The first loop of `allow`.
unfoldable pub expire : ℕ → ℕ → Entries → Entries
expire ttl now = filter (λ e. not (is_idle ttl now e.1))

-- The head of the entries sorted by `lastSeenAt`: the sort is stable, so it is the first of those
-- that were seen longest ago.
unfoldable pub oldest : Entries → Option (String × BucketEntry)
oldest [] = none
oldest (e ∷ es) = elim (oldest es) [
  | none ↦ some e
  | some f ↦ some (if leb e.1.last_seen_at f.1.last_seen_at then e else f)
]

abbrev pub drop_oldest : Option (String × BucketEntry) → Entries → Entries
drop_oldest none es = es
drop_oldest (some e) es = remove e.0 es

-- Makes room for one more key.
unfoldable pub make_room : ℕ → Entries → Entries
unfolding oldest
make_room maximum es = if leb maximum (length es) then drop_oldest (oldest es) es else es

-- The last two statements of `allow`, with the bucket of the key at hand.
abbrev pub ask : KeyedTokenBucket → Entries → String → ℕ → TokenBucket → KeyedTokenBucket × Bool
ask s es key now bucket =
    let (next, passed) = Bucket.allow bucket now in
    (record s { entries = insert key (record { bucket = next; last_seen_at = now }) es }, passed)

-- A key that is not there gets a new bucket; what was removed to make room stays removed on an
-- error too.
abbrev pub ask_new :
    KeyedTokenBucket
    → Entries
    → String
    → ℕ
    → Outcome Error TokenBucket
    → KeyedTokenBucket × Outcome Error Bool
ask_new s room key now (throw e) = (record s { entries = room }, throw e)
ask_new s room key now (ok bucket) = let (s', passed) = ask s room key now bucket in (s', ok passed)

abbrev pub ask_found :
    KeyedTokenBucket
    → Entries
    → String
    → ℕ
    → Option BucketEntry
    → KeyedTokenBucket × Outcome Error Bool
ask_found s live key now (some entry) =
    let (s', passed) = ask s live key now entry.bucket in (s', ok passed)
ask_found s live key now none =
    ask_new s (make_room s.maximum_keys live) key now (Bucket.new s.rate_per_second s.burst now)

unfoldable pub allow : KeyedTokenBucket → String → ℕ → KeyedTokenBucket × Outcome Error Bool
allow s key now =
    let live = expire s.idle_ttl_ms now s.entries in ask_found s live key now (lookup key live)

-- The getter `size`.
abbrev pub size : KeyedTokenBucket → ℕ
size s = length s.entries
