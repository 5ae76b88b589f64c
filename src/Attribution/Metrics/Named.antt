-- ===== src/Attribution/Metrics/Named.antt =====
-- Which lists of definitions of metrics `metricDefinitions` lets pass.
use mathlib.Core.List.{Memᴰ}
use mathlib.Core.List.Memᴰ
use open_mmp.Common.{
  ◌≡◌, ◌↔◌, refl, ap, ◌∙◌, inl, inr, false, List, [], ◌∷◌, ◌++◌, map, String, str_eq, eq_iff, All,
  Bool-cases, ok, >>=-eq-ok, and_then_iff, arith,
}
use open_mmp.Common.Pigeonhole.{AllDistinct}
use open_mmp.Attribution.Metrics.Definitions.{
  MetricDefinition, base_metric_definitions, contains, is_in_series, fail_if_named,
  validate_metric_definition_series, check_definitions, metric_definitions,
}
use open_mmp.Attribution.Order.{sort_by_key}
use open_mmp.Attribution.Metrics.Series.{IsInSeries, is_in_series_iff}

fail_if_named_iff :
    (names : List String) (name : String)
    → (fail_if_named names name ≡ ok tt) ↔ (contains name names ≡ false)
fail_if_named_iff names name = elim (Bool-cases (contains name names)) [
  | inl t ↦ rw t (λ h. cc, λ h. cc)
  | inr t ↦ rw t (λ h. refl, λ h. refl)
]

validate_iff : (d : MetricDefinition) → (validate_metric_definition_series d ≡ ok tt) ↔ IsInSeries d
validate_iff d =
    let (to, from) = is_in_series_iff d in
    elim (Bool-cases (is_in_series d)) [
      | inl t ↦ (λ h. to t, λ k. rw t refl)
      | inr t ↦ (λ h. cc (rw t at h), λ k. let u = from k in cc)
    ]

-- Names that are new, each of them to those before it.
abbrev AreNew : List String → List MetricDefinition → Type 0
AreNew names [] = Unit
AreNew names (d ∷ ds) = (contains d.metric_name names ≡ false) × AreNew (d.metric_name ∷ names) ds

check_definitions_iff :
    (names : List String) (ds : List MetricDefinition)
    → (check_definitions names ds ≡ ok tt) ↔ (AreNew names ds × All IsInSeries ds)
unfolding check_definitions
check_definitions_iff names [] = (λ h. (tt, tt), λ h. refl)
check_definitions_iff names (d ∷ ds) =
    let n = fail_if_named_iff names d.metric_name in
    let v = validate_iff d in
    let r = check_definitions_iff (d.metric_name ∷ names) ds in
    let i = and_then_iff (fail_if_named names d.metric_name) _ in
    let j =
      and_then_iff (validate_metric_definition_series d)
        (check_definitions (d.metric_name ∷ names) ds) in
    (
      λ h.
          let (a, h1) = i.0 h in
          let (b, h2) = j.0 h1 in let (c, e) = r.0 h2 in ((n.0 a, c), (v.0 b, e)),
      λ ((a, c), (b, e)). i.1 (n.1 a, j.1 (v.1 b, r.1 (c, e))),
    )

AreNew-iff :
    (names : List String) (ds : List MetricDefinition)
    → AreNew names ds ↔ (
        AllDistinct (map (λ d. d.metric_name) ds)
        × ((name : String) → Memᴰ name (map (λ d. d.metric_name) ds) → contains name names ≡ false))
AreNew-iff names [] = (λ h. (tt, λ name m. elim m [ ]), λ h. tt)
AreNew-iff names (d ∷ ds) =
    let (to, from) = AreNew-iff (d.metric_name ∷ names) ds in
    (
      λ (fresh, rest).
          let (distinct, apart) = to rest in
          (
            (
              λ y m e.
                  let same = (eq_iff d.metric_name y).1 e in
                  let other = apart y m in absurd (ground (arith, same, other)),
              distinct,
            ),
            λ name m. elim (Memᴰ.cases_cons m) [
              | inl e ↦ ap (λ n. contains n names) e ∙ fresh
              | inr n ↦ let other = apart name n in ground (arith, other)
            ],
          ),
      λ ((apart, distinct), unnamed). (
        unnamed d.metric_name (Memᴰ.head refl),
        from (
          distinct,
          λ name m. elim (Bool-cases (str_eq d.metric_name name)) [
            | inl t ↦ absurd (apart name m ((eq_iff d.metric_name name).0 t))
            | inr t ↦ let old = unnamed name (Memᴰ.tail m) in ground (arith, t, old)
          ],
        ),
      ),
    )

-- The definitions of metrics are given out exactly if no two of them, those of the program included, have
-- one name, and each is what its name asks for: the counts of aggregate postbacks and of deep links
-- have their own event and their own dimensions, in whatever order, and no other metric counts
-- postbacks or has their bucket as a dimension.
pub metric_definitions_iff :
    (digest : MetricDefinition → String) (given : List MetricDefinition)
    → ((sorted : List MetricDefinition) × (metric_definitions digest given ≡ ok sorted)) ↔ (
        AllDistinct (map (λ d. d.metric_name) (base_metric_definitions ++ given))
        × All IsInSeries (base_metric_definitions ++ given))
unfolding metric_definitions
metric_definitions_iff digest given =
    let all = base_metric_definitions ++ given in
    let (to, from) = check_definitions_iff [] all in
    let (down, up) = AreNew-iff [] all in
    (
      λ (sorted, h).
          let (u, checked, k) = >>=-eq-ok (check_definitions [] all) _ h in
          let (new, series) = to checked in ((down new).0, series),
      λ (d, series).
          let checked = from (up (d, λ name m. refl), series) in
          (
            sort_by_key digest all (λ d. d.metric_name ∷ d.metric_definition_version ∷ []),
            rw checked refl,
          ),
    )
