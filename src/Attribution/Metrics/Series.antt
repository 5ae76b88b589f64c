-- ===== src/Attribution/Metrics/Series.antt =====
-- Which definitions of metrics `metricDefinitions` lets pass.
use mathlib.Core.List.{Memᴰ, Permᴰ}
use mathlib.Core.List.Memᴰ
use mathlib.Core.Path.{subst}
use open_mmp.Common.{
  ◌≡◌, ◌↔◌, refl, sym, ap, inl, inr, Bool, true, false, not, ◌&&◌, List, [], ◌∷◌, some, String,
  str_eq, eq_iff, opt_eq_iff, any, all, length, ==_iff, Bool-cases, arith, if◌then◌else◌,
}
use open_mmp.Common.Pigeonhole.{AllDistinct, included_iff-Permᴰ}
use open_mmp.Attribution.Metrics.Definitions.{
  MetricDefinition, TimeZone, utc, asia_tokyo, contains, aggregate_names, link_names,
  is_aggregate_event, expected_event, expected_grouping, link_grouping, is_utc, is_event_count,
  is_sole, is_grouping, is_in_series,
}

-- The events of a kind counted by certain dimensions, in whatever order they are named.
abbrev pub Counts : MetricDefinition → String → List String → Type 0
Counts d event grouping =
    (d.calculation ≡ some "event_count")
    × (d.numerator ≡ some "events")
    × (d.event_names ≡ event ∷ [])
    × Permᴰ d.grouping_dimensions grouping

-- What a definition must be by its name.
abbrev pub IsInSeries : MetricDefinition → Type 0
IsInSeries d =
    if contains d.metric_name aggregate_names
    then (d.aggregation_time_zone ≡ utc)
      × Counts d (expected_event d.metric_name) (expected_grouping d.metric_name)
    else if contains d.metric_name link_names
    then Counts d "deep_link_open" (link_grouping d.metric_name)
    else (any is_aggregate_event d.event_names ≡ false)
      × (contains "apple_conversion_bucket" d.grouping_dimensions ≡ false)

pub contains_iff : (value : String) (xs : List String) → (contains value xs ≡ true) ↔ Memᴰ value xs
contains_iff value [] = (λ h. cc, λ m. elim m [ ])
contains_iff value (x ∷ xs) =
    let (to, from) = contains_iff value xs in
    (
      λ h. elim (Bool-cases (str_eq x value)) [
        | inl t ↦ Memᴰ.head (sym ((eq_iff x value).0 t))
        | inr t ↦ Memᴰ.tail (to (rw t at h))
      ],
      λ m. elim (Memᴰ.cases_cons m) [
        | inl e ↦ let t = (eq_iff x value).1 (sym e) in ground (arith, t)
        | inr n ↦ let t = from n in ground (arith, t)
      ],
    )

-- A decidable form of distinctness.
abbrev distinct : List String → Bool
distinct [] = true
distinct (x ∷ xs) = not (contains x xs) && distinct xs

distinct_sound : (xs : List String) → distinct xs ≡ true → AllDistinct xs
distinct_sound [] h = tt
distinct_sound (x ∷ xs) h =
    let here : contains x xs ≡ false = ground arith in
    let rest : distinct xs ≡ true = ground arith in
    (
      λ y m e.
          let there = (contains_iff y xs).1 m in
          let same = ap (λ z. contains z xs) e in ground (arith, here, there, same),
      distinct_sound xs rest,
    )

all_contained_iff :
    (expected xs : List String)
    → (all (λ value. contains value xs) expected ≡ true)
      ↔ ((y : String) → Memᴰ y expected → Memᴰ y xs)
all_contained_iff [] xs = (λ h y m. elim m [ ], λ h. refl)
all_contained_iff (v ∷ expected) xs =
    let (to, from) = all_contained_iff expected xs in
    let (down, up) = contains_iff v xs in
    (
      λ h y m.
          let here : contains v xs ≡ true = ground arith in
          let rest : all (λ value. contains value xs) expected ≡ true = ground arith in
          elim (Memᴰ.cases_cons m) [
            | inl e ↦ subst (λ z. Memᴰ z xs) (sym e) (down here)
            | inr n ↦ to rest y n
          ],
      λ h.
          let here = up (h v (Memᴰ.head refl)) in
          let rest = from (λ y m. h y (Memᴰ.tail m)) in ground (arith, here, rest),
    )

is_grouping_iff :
    (expected xs : List String)
    → distinct expected ≡ true
    → (is_grouping expected xs ≡ true) ↔ Permᴰ xs expected
is_grouping_iff expected xs d =
    let (to, from) = included_iff-Permᴰ expected xs (distinct_sound expected d) in
    let (down, up) = all_contained_iff expected xs in
    let (size, same) = ==_iff (length xs) (length expected) in
    (
      λ h. to (size (ground arith), down (ground arith)),
      λ p. let (n, m) = from p in let a = same n in let b = up m in ground (arith, a, b),
    )

is_sole_iff : (event : String) (xs : List String) → (is_sole event xs ≡ true) ↔ (xs ≡ event ∷ [])
is_sole_iff event [] = (λ h. cc, λ h. cc)
is_sole_iff event (x ∷ []) =
    let (to, from) = eq_iff x event in (λ h. ap (λ y. y ∷ []) (to h), λ h. from (cc h))
is_sole_iff event (x ∷ y ∷ xs) = (λ h. cc, λ h. cc)

counts : MetricDefinition → String → List String → Bool
counts d event grouping =
    is_event_count d && is_sole event d.event_names && is_grouping grouping d.grouping_dimensions

counts_iff :
    (d : MetricDefinition) (event : String) (grouping : List String)
    → distinct grouping ≡ true
    → (counts d event grouping ≡ true) ↔ Counts d event grouping
unfolding counts
counts_iff d event grouping h =
    let c = opt_eq_iff d.calculation (some "event_count") in
    let n = opt_eq_iff d.numerator (some "events") in
    let s = is_sole_iff event d.event_names in
    let g = is_grouping_iff grouping d.grouping_dimensions h in
    (
      λ t. (c.0 (ground arith), n.0 (ground arith), s.0 (ground arith), g.0 (ground arith)),
      λ (p, q, r, t).
          let a = c.1 p in
          let b = n.1 q in let e = s.1 r in let f = g.1 t in ground (arith, a, b, e, f),
    )

expected_grouping-distinct : (name : String) → distinct (expected_grouping name) ≡ true
expected_grouping-distinct name =
    elim (Bool-cases (str_eq name "skan_conversion_value_distribution")) [
      | inl t ↦ rw t refl
      | inr t ↦ rw t refl
    ]

link_grouping-distinct : (name : String) → distinct (link_grouping name) ≡ true
link_grouping-distinct name = elim (Bool-cases (str_eq name "daily_deep_link_opens_by_status")) [
  | inl t ↦ rw t refl
  | inr t ↦ rw t refl
]

is_utc_iff : (z : TimeZone) → (is_utc z ≡ true) ↔ (z ≡ utc)
is_utc_iff utc = (λ h. refl, λ h. refl)
is_utc_iff asia_tokyo = (λ h. cc, λ h. cc)

swap_tests : (a b c d : Bool) → ((a && b && c && d) ≡ true) ↔ ((b ≡ true) × ((a && c && d) ≡ true))
swap_tests a b c d = (λ h. (ground arith, ground arith), λ (p, q). ground (arith, p, q))

neither_iff : (a b : Bool) → ((not a && not b) ≡ true) ↔ ((a ≡ false) × (b ≡ false))
neither_iff a b = (λ h. (ground arith, ground arith), λ (p, q). ground (arith, p, q))

pub is_in_series_iff : (d : MetricDefinition) → (is_in_series d ≡ true) ↔ IsInSeries d
unfolding counts
is_in_series_iff d = elim (Bool-cases (contains d.metric_name aggregate_names)) [
  | inl t ↦
      let (to, from) =
        counts_iff d (expected_event d.metric_name) (expected_grouping d.metric_name)
          (expected_grouping-distinct d.metric_name) in
      let (down, up) = is_utc_iff d.aggregation_time_zone in
      let (out, back) =
        swap_tests (is_event_count d) (is_utc d.aggregation_time_zone)
          (is_sole (expected_event d.metric_name) d.event_names)
          (is_grouping (expected_grouping d.metric_name) d.grouping_dimensions) in
      rw t (λ h. let (u, c) = out h in (down u, to c), λ (u, c). back (up u, from c))
  | inr t ↦ elim (Bool-cases (contains d.metric_name link_names)) [
    | inl u ↦
        let (to, from) =
          counts_iff d "deep_link_open" (link_grouping d.metric_name)
            (link_grouping-distinct d.metric_name) in
        rw (t, u) (to, from)
    | inr u ↦ rw (t, u) (neither_iff _ _)
  ]
]
