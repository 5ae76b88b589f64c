-- ===== src/RateLimit/Keyed/Isolation.antt =====
-- What a request of one key does to that key's bucket, and to the buckets of the others.
use open_mmp.Common.{
  ℕ, ◌*◌, ◌≤◌, ◌<◌, ◌≡◌, ◌≢◌, ◌⊎◌, inl, inr, refl, ◌∙◌, true, false, none, some, String, ok, arith,
  length, lookup, lookup-insert_ne, lookup-insert_self, string_eq, Option-cases, Bool-cases,
}
use open_mmp.RateLimit.Bucket
use open_mmp.RateLimit.Bucket.{TokenBucket}
use open_mmp.RateLimit.Keyed.{
  BucketEntry, Entries, KeyedTokenBucket, allow, expire, make_room, is_idle,
}
use open_mmp.RateLimit.Keyed.Laws.{
  IsValid, allow_present, allow_refused, allow_fresh, Outcome-cases,
}
use open_mmp.RateLimit.Keyed.Laws.Room.{
  IsOldest, expire-IsDistinct, lookup-expire_kept, lookup-expire_dropped, lookup-make_room,
}

module _ (s : KeyedTokenBucket) (key : String) (now : ℕ) (v : IsValid s) where
  abbrev lives : Entries
  lives = expire s.idle_ttl_ms now s.entries

  -- The entry of another key that was there is there unchanged after the request, or it had been
  -- idle for the time to live, or the asking key was new while the limiter was full and no live
  -- entry was seen before that entry.
  pub allow_elsewhere :
      (j : String) (w : BucketEntry)
      → key ≢ j
      → lookup j s.entries ≡ some w
      → (lookup j (allow s key now).0.entries ≡ some w)
        ⊎ ((is_idle s.idle_ttl_ms now w ≡ true)
            ⊎ ((lookup key lives ≡ none) × (s.maximum_keys ≤ length lives) × IsOldest w lives))
  allow_elsewhere j w other there = elim (Bool-cases (is_idle s.idle_ttl_ms now w)) [
    | inl idle ↦ inr (inl idle)
    | inr busy ↦
        let kept = lookup-expire_kept s.idle_ttl_ms now j w s.entries there busy in
        let distinct = expire-IsDistinct s.idle_ttl_ms now s.entries v.distinct in
        elim (Option-cases (lookup key lives)) [
          | inr (entry, present) ↦
              rw (allow_present s key now entry present)
                (inl (lookup-insert_ne key j _ lives other ∙ kept))
          | inl absent ↦ elim (lookup-make_room s.maximum_keys lives j w distinct kept) [
            | inr (full, old) ↦ inr (inr (absent, full, old))
            | inl stays ↦ elim (Outcome-cases (Bucket.new s.rate_per_second s.burst now)) [
              | inl (b, made) ↦
                  rw (allow_fresh s key now b absent made)
                    (inl (lookup-insert_ne key j _ (make_room s.maximum_keys lives) other ∙ stays))
              | inr (e, refused) ↦ rw (allow_refused s key now e absent refused) (inl stays)
            ]
          ]
        ]
  ]

  -- A key that is there and not idle is answered by its own bucket, whatever other keys did, and
  -- its entry becomes what the bucket's own `allow` makes of it, seen now.
  pub allow_own :
      (w : BucketEntry)
      → lookup key s.entries ≡ some w
      → is_idle s.idle_ttl_ms now w ≡ false
      → ((allow s key now).1 ≡ ok (Bucket.allow w.bucket now).1)
        × (lookup key (allow s key now).0.entries
            ≡ some (record { bucket = (Bucket.allow w.bucket now).0; last_seen_at = now }))
  allow_own w there busy =
      let kept = lookup-expire_kept s.idle_ttl_ms now key w s.entries there busy in
      rw (allow_present s key now w kept) (refl, lookup-insert_self key _ lives)

  -- A key that has been idle starts again with a full bucket, so that its request passes.
  pub allow_again :
      (w : BucketEntry)
      → 0 < s.rate_per_second
      → 0 < s.burst
      → lookup key s.entries ≡ some w
      → is_idle s.idle_ttl_ms now w ≡ true
      → (allow s key now).1 ≡ ok true
  unfolding Bucket.new Bucket.allow
  allow_again w rate burst there idle =
      let absent = lookup-expire_dropped s.idle_ttl_ms now key w s.entries v.distinct there idle in
      let full : TokenBucket = record {
        rate_per_second = s.rate_per_second;
        burst = s.burst;
        tokens = 1000 * s.burst;
        updated_at = now;
      } in
      rw (allow_fresh s key now full absent (ground arith)) (ground arith)
