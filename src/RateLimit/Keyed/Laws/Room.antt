-- ===== src/RateLimit/Keyed/Laws/Room.antt =====
-- Expiry and eviction: what `expire` and `make_room` keep of the entries.
use mathlib.Core.Path.{subst}
use native.Mathlib.Nat.{le_refl}
use open_mmp.Common.{
  ℕ, ◌+◌, ◌≤◌, ◌<◌, ◌≡◌, ◌≢◌, ◌⊎◌, inl, inr, true, false, [], ◌∷◌, none, some, String, arith,
  length, lookup, lookup-remove_ne, length-remove, IsDistinct, remove-IsDistinct, Values,
  remove-Values, string_eq, Option-cases, All, All-map, length-filter-le, filter-IsDistinct,
  filter-Values, Bool-cases, leb, ◌∙◌, str_eq, eq_iff, lookup-filter_kept, lookup-filter_dropped,
  if◌then◌else◌,
}
use open_mmp.RateLimit.Keyed.{BucketEntry, Entries, expire, oldest, make_room, is_idle}

module _ (ttl now : ℕ) where
  pub length-expire-le : (es : Entries) → length (expire ttl now es) ≤ length es
  unfolding expire
  length-expire-le es = length-filter-le _ es

  pub expire-IsDistinct : (es : Entries) → IsDistinct es → IsDistinct (expire ttl now es)
  unfolding expire
  expire-IsDistinct es d = filter-IsDistinct _ es d

  pub expire-Values :
      (P : BucketEntry → Type 0) (es : Entries) → Values P es → Values P (expire ttl now es)
  unfolding expire
  expire-Values P es h = filter-Values P _ es h

  pub lookup-expire_kept :
      (k : String) (v : BucketEntry) (es : Entries)
      → lookup k es ≡ some v
      → is_idle ttl now v ≡ false
      → lookup k (expire ttl now es) ≡ some v
  unfolding expire
  lookup-expire_kept k v es h i = lookup-filter_kept _ k v es h (rw i)

  pub lookup-expire_dropped :
      (k : String) (v : BucketEntry) (es : Entries)
      → IsDistinct es
      → lookup k es ≡ some v
      → is_idle ttl now v ≡ true
      → lookup k (expire ttl now es) ≡ none
  unfolding expire
  lookup-expire_dropped k v es d h i = lookup-filter_dropped _ k v es d h (rw i)

-- No entry was seen before `e`.
abbrev pub IsOldest : BucketEntry → Entries → Type 0
IsOldest e es = All (λ f. e.last_seen_at ≤ f.1.last_seen_at) es

oldest-cons : (e : String × BucketEntry) (es : Entries) → oldest (e ∷ es) ≢ none
unfolding oldest
oldest-cons e es = elim (Option-cases (oldest es)) [ inl q ↦ rw q (cc) | inr (f, q) ↦ rw q (cc) ]

pub oldest-IsOldest :
    (es : Entries) (e : String × BucketEntry) → oldest es ≡ some e → IsOldest e.1 es
unfolding oldest
oldest-IsOldest [] e h = tt
oldest-IsOldest (x ∷ []) e h = ground arith
oldest-IsOldest (x ∷ y ∷ es) e h = elim (Option-cases (oldest (y ∷ es))) [
  | inl q ↦ absurd (oldest-cons y es q)
  | inr (f, q) ↦
      let ih = oldest-IsOldest (y ∷ es) f q in
      let chosen : (if leb x.1.last_seen_at f.1.last_seen_at then x else f) ≡ e = ground arith in
      elim (Bool-cases (leb x.1.last_seen_at f.1.last_seen_at)) [
        | inl t ↦
            let same : x ≡ e = ground arith in
            subst (λ (z : String × BucketEntry). IsOldest z.1 (x ∷ y ∷ es)) same
              (le_refl x.1.last_seen_at, All-map _ _ (y ∷ es) (λ g p. ground arith) ih)
        | inr t ↦
            let same : f ≡ e = ground arith in
            subst (λ (z : String × BucketEntry). IsOldest z.1 (x ∷ y ∷ es)) same (ground arith, ih)
      ]
]

pub oldest-lookup :
    (es : Entries) (k : String) (v : BucketEntry)
    → IsDistinct es
    → oldest es ≡ some (k, v)
    → lookup k es ≡ some v
unfolding oldest
oldest-lookup [] k v d h = cc
oldest-lookup ((j, w) ∷ es) k v (u, d) h = elim (Option-cases (oldest es)) [
  | inl q ↦ ground (arith, eq_iff j k)
  | inr (f, q) ↦ ground (arith, eq_iff j k, oldest-lookup es f.0 f.1 d)
]

module _ (maximum : ℕ) where
  pub make_room-IsDistinct : (es : Entries) → IsDistinct es → IsDistinct (make_room maximum es)
  unfolding make_room
  make_room-IsDistinct es d = elim (Bool-cases (leb maximum (length es))) [
    | inl t ↦ elim (Option-cases (oldest es)) [
      | inl q ↦ rw (t, q) d
      | inr (e, q) ↦ rw (t, q) (remove-IsDistinct e.0 es d)
    ]
    | inr t ↦ rw t d
  ]

  pub make_room-Values :
      (P : BucketEntry → Type 0) (es : Entries) → Values P es → Values P (make_room maximum es)
  unfolding make_room
  make_room-Values P es h = elim (Bool-cases (leb maximum (length es))) [
    | inl t ↦ elim (Option-cases (oldest es)) [
      | inl q ↦ rw (t, q) h
      | inr (e, q) ↦ rw (t, q) (remove-Values P e.0 es h)
    ]
    | inr t ↦ rw t h
  ]

  -- One more key fits.
  pub length-make_room :
      (es : Entries)
      → 0 < maximum
      → IsDistinct es
      → length es ≤ maximum
      → length (make_room maximum es) + 1 ≤ maximum
  unfolding make_room
  length-make_room [] pos d h = ground arith
  length-make_room (x ∷ es) pos d h = elim (Option-cases (oldest (x ∷ es))) [
    | inl q ↦ absurd (oldest-cons x es q)
    | inr (e, q) ↦
        let shorter = length-remove e.0 e.1 (x ∷ es) (oldest-lookup (x ∷ es) e.0 e.1 d q) in
        elim (Bool-cases (leb maximum (length (x ∷ es)))) [
          | inl t ↦ rw (t, q) (omega (arith, shorter))
          | inr t ↦ rw t (ground arith)
        ]
  ]

  -- What making room costs: an entry stays, or the entries were full and it was seen longest ago.
  pub lookup-make_room :
      (es : Entries) (k : String) (v : BucketEntry)
      → IsDistinct es
      → lookup k es ≡ some v
      → (lookup k (make_room maximum es) ≡ some v) ⊎ ((maximum ≤ length es) × IsOldest v es)
  unfolding make_room
  lookup-make_room es k v d h = elim (Bool-cases (leb maximum (length es))) [
    | inr t ↦ rw t (inl h)
    | inl t ↦ elim (Option-cases (oldest es)) [
      | inl q ↦ rw (t, q) (inl h)
      | inr (e, q) ↦
          rw (t, q)
            (elim (Bool-cases (str_eq e.0 k)) [
              | inr other ↦ inl (lookup-remove_ne e.0 k es (ground (arith, eq_iff e.0 k)) ∙ h)
              | inl same ↦
                  let theirs : e.1 ≡ v =
                    ground (arith, eq_iff e.0 k, oldest-lookup es e.0 e.1 d q) in
                  inr (ground arith, subst (λ z. IsOldest z es) theirs (oldest-IsOldest es e q))
            ])
    ]
  ]
