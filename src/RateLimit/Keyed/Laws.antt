-- ===== src/RateLimit/Keyed/Laws.antt =====
-- What the limiter keeps: a bounded number of keys, each once, with valid buckets.
pub mod Room
use open_mmp.Common.{
  ℕ, ◌+◌, ◌-◌, ◌≤◌, ◌<◌, ◌≡◌, ◌≢◌, ◌⊎◌, inl, inr, refl, Bool, true, false, List, [], ◌∷◌, Option,
  none, some, String, ok, throw, Outcome, arith, length, lookup, insert, lookup-insert_ne,
  lookup-insert_self, length-insert_present, IsDistinct, Values, insert-IsDistinct, insert-Values,
  lookup-Values, string_eq, Option-cases, length-insert-le, Bool-cases,
}
use open_mmp.RateLimit.Bucket
use open_mmp.RateLimit.Bucket.{TokenBucket, Error}
use open_mmp.RateLimit.Bucket.Laws.{new-IsValid, allow-IsValid as bucket-allow-IsValid}
use open_mmp.RateLimit.Bucket.Laws.{IsValid as IsValidBucket}
use open_mmp.RateLimit.Keyed.{
  BucketEntry, Entries, KeyedTokenBucket, new, allow, expire, make_room, ask, ask_found, ask_new,
  is_idle, size,
}
use Room.{
  IsOldest, length-expire-le, expire-IsDistinct, expire-Values, lookup-expire_kept,
  lookup-expire_dropped, make_room-IsDistinct, make_room-Values, length-make_room, lookup-make_room,
}

abbrev HasValidBucket : BucketEntry → Type 0
HasValidBucket entry = IsValidBucket entry.bucket

pub record IsValid (s : KeyedTokenBucket) : Type 0 where
  pub some_keys : 0 < s.maximum_keys
  pub bounded : size s ≤ s.maximum_keys
  pub distinct : IsDistinct s.entries
  pub buckets : Values HasValidBucket s.entries

-- The entries of `allow` before the key's own is written, in each of its three cases.
module _ (s : KeyedTokenBucket) (key : String) (now : ℕ) where
  abbrev pub live : Entries
  live = expire s.idle_ttl_ms now s.entries

  pub allow_present :
      (entry : BucketEntry)
      → lookup key (expire s.idle_ttl_ms now s.entries) ≡ some entry
      → allow s key now
        ≡ ((ask s live key now entry.bucket).0, ok (ask s live key now entry.bucket).1)
  unfolding allow
  allow_present entry h = rw (h, ask_found)

  pub allow_refused :
      (e : Error)
      → lookup key (expire s.idle_ttl_ms now s.entries) ≡ none
      → Bucket.new s.rate_per_second s.burst now ≡ throw e
      → allow s key now ≡ (record s { entries = make_room s.maximum_keys live }, throw e)
  unfolding allow
  allow_refused e h n = rw (h, n, ask_found, ask_new)

  pub allow_fresh :
      (b : TokenBucket)
      → lookup key (expire s.idle_ttl_ms now s.entries) ≡ none
      → Bucket.new s.rate_per_second s.burst now ≡ ok b
      → allow s key now ≡ (
        (ask s (make_room s.maximum_keys live) key now b).0,
        ok (ask s (make_room s.maximum_keys live) key now b).1,
      )
  unfolding allow
  allow_fresh b h n = rw (h, n, ask_found, ask_new)

pub Outcome-cases :
    {A : Type 0} (o : Outcome Error A) → ((a : A) × (o ≡ ok a)) ⊎ ((e : Error) × (o ≡ throw e))
Outcome-cases (ok a) = inl (a, refl)
Outcome-cases (throw e) = inr (e, refl)

ask-IsValid :
    (s : KeyedTokenBucket) (es : Entries) (key : String) (now : ℕ) (b : TokenBucket)
    → 0 < s.maximum_keys
    → length (insert key (record { bucket = (Bucket.allow b now).0; last_seen_at = now }) es)
      ≤ s.maximum_keys
    → IsDistinct es
    → Values HasValidBucket es
    → IsValidBucket b
    → IsValid (ask s es key now b).0
ask-IsValid s es key now b pos fits d vs v = record {
  some_keys = pos;
  bounded = fits;
  distinct = insert-IsDistinct key _ es d;
  buckets = insert-Values HasValidBucket key _ es (bucket-allow-IsValid now v) vs;
}

module _ (s : KeyedTokenBucket) (key : String) (now : ℕ) (v : IsValid s) where
  abbrev lives : Entries
  lives = expire s.idle_ttl_ms now s.entries

  abbrev room : Entries
  room = make_room s.maximum_keys lives

  lives-bounded : length lives ≤ s.maximum_keys
  lives-bounded = omega (arith, length-expire-le s.idle_ttl_ms now s.entries, v.bounded)

  lives-IsDistinct : IsDistinct lives
  lives-IsDistinct = expire-IsDistinct s.idle_ttl_ms now s.entries v.distinct

  lives-Values : Values HasValidBucket lives
  lives-Values = expire-Values s.idle_ttl_ms now HasValidBucket s.entries v.buckets

  room-bounded : length room + 1 ≤ s.maximum_keys
  room-bounded = length-make_room s.maximum_keys lives v.some_keys lives-IsDistinct lives-bounded

  room-IsDistinct : IsDistinct room
  room-IsDistinct = make_room-IsDistinct s.maximum_keys lives lives-IsDistinct

  room-Values : Values HasValidBucket room
  room-Values = make_room-Values s.maximum_keys HasValidBucket lives lives-Values

  -- Whatever key asks, and when, a valid limiter stays valid: it never holds more than the maximum
  -- of keys, holds none twice, and each bucket holds at most its burst. This covers the branch on
  -- which the new bucket's constructor throws.
  pub keyed-allow-IsValid : IsValid (allow s key now).0
  keyed-allow-IsValid = elim (Option-cases (lookup key lives)) [
    | inl absent ↦ elim (Outcome-cases (Bucket.new s.rate_per_second s.burst now)) [
      | inl (b, made) ↦ rw (allow_fresh s key now b absent made) (
          ask-IsValid s room key now b v.some_keys
            (omega (arith, length-insert-le key _ room, room-bounded)) room-IsDistinct room-Values
            (new-IsValid s.rate_per_second s.burst now made))
      | inr (e, refused) ↦ rw (allow_refused s key now e absent refused) (record {
        some_keys = v.some_keys;
        bounded = omega (arith, room-bounded);
        distinct = room-IsDistinct;
        buckets = room-Values;
      })
    ]
    | inr (entry, present) ↦ rw (allow_present s key now entry present) (
        ask-IsValid s lives key now entry.bucket v.some_keys
          (omega (arith, length-insert_present key _ entry lives present, lives-bounded))
          lives-IsDistinct lives-Values
          (lookup-Values HasValidBucket key entry lives lives-Values present))
  ]
