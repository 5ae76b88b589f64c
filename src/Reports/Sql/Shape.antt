-- ===== src/Reports/Sql/Shape.antt =====
-- What the text of a statement depends on.
use open_mmp.Common.{
  ℕ, ◌+◌, ◌≡◌, refl, ap, ◌∙◌, inl, inr, List, [], ◌∷◌, ◌++◌, map, Option, none, some, String,
  str_eq, length, length-append, truthy, is_some, Bool-cases, arith,
}
use open_mmp.Reports.Query.{Supersession, latest, all_runs, MetricCursor, MetricQuery}
use open_mmp.Reports.Sql.{
  Value, text, texts, number, literal, placeholder, Built, join, add_plain, add_bound, add_given,
  add_names, add_grouping, add_latest, add_after, in_scope, finished, run_date_from, run_date_to,
  not_replaced_run, select_runs, order_runs, metric_predicates, build_metric_query,
  artifact_date_from, artifact_date_to, not_replaced_result, select_results, order_results,
  difference_predicates, build_difference_query,
}

-- The same filters are given, and the same runs asked for; the values may differ.
pub record SameShape (q r : MetricQuery) : Type 0 where
  pub names : is_some q.metric_names ≡ is_some r.metric_names
  pub version : truthy q.metric_definition_version ≡ truthy r.metric_definition_version
  pub dimensions : map (λ g. g.0) q.grouping ≡ map (λ g. g.0) r.grouping
  pub from : truthy q.date_from ≡ truthy r.date_from
  pub to : truthy q.date_to ≡ truthy r.date_to
  pub watermark : truthy q.watermark_at_most ≡ truthy r.watermark_at_most
  pub reason : truthy q.difference_reason_code ≡ truthy r.difference_reason_code
  pub supersession : q.supersession ≡ r.supersession
  pub after : is_some q.after ≡ is_some r.after

abbrev Alike : Built → Built → Type 0
Alike b c = (b.predicates ≡ c.predicates) × (length b.values ≡ length c.values)

pushed-length :
    (vs ws : List Value) (v w : Value)
    → length vs ≡ length ws
    → length (vs ++ v ∷ []) ≡ length (ws ++ w ∷ [])
pushed-length vs ws v w h = omega (arith, length-append vs (v ∷ []), length-append ws (w ∷ []))

add_bound-Alike :
    (before : List String) (v w : Value) (after : String) (b c : Built)
    → Alike b c
    → Alike (add_bound before v after b) (add_bound before w after c)
unfolding add_bound
add_bound-Alike before v w after b c (p, n) =
    let size = pushed-length b.values c.values v w n in
    (λ i. p i ++ (map literal before ++ placeholder (size i) ∷ literal after ∷ []) ∷ [], size)

add_plain-Alike : (s : String) (b c : Built) → Alike b c → Alike (add_plain s b) (add_plain s c)
unfolding add_plain
add_plain-Alike s b c (p, n) = (λ i. p i ++ (literal s ∷ []) ∷ [], n)

add_given-Alike :
    (before : String) (o u : Option String) (after : String) (b c : Built)
    → truthy o ≡ truthy u
    → Alike b c
    → Alike (add_given before o after b) (add_given before u after c)
add_given-Alike before none none after b c e h = h
add_given-Alike before none (some w) after b c e h = elim (Bool-cases (str_eq w "")) [
  | inl t ↦ rw t h
  | inr t ↦ absurd (cc (rw t at e))
]
add_given-Alike before (some v) none after b c e h = elim (Bool-cases (str_eq v "")) [
  | inl t ↦ rw t h
  | inr t ↦ absurd (cc (rw t at e))
]
add_given-Alike before (some v) (some w) after b c e h = elim (Bool-cases (str_eq v "")) [
  | inl t ↦ elim (Bool-cases (str_eq w "")) [
    | inl u ↦ rw (t, u) h
    | inr u ↦ absurd (ground (arith, t, u, e))
  ]
  | inr t ↦ elim (Bool-cases (str_eq w "")) [
    | inl u ↦ absurd (ground (arith, t, u, e))
    | inr u ↦ rw (t, u) (add_bound-Alike (before ∷ []) (text v) (text w) after b c h)
  ]
]

add_names-Alike :
    (o u : Option (List String)) (b c : Built)
    → is_some o ≡ is_some u
    → Alike b c
    → Alike (add_names o b) (add_names u c)
add_names-Alike none none b c e h = h
add_names-Alike none (some w) b c e h = cc
add_names-Alike (some v) none b c e h = cc
add_names-Alike (some v) (some w) b c e h =
    add_bound-Alike ("mr.metric_name=ANY(" ∷ []) (texts v) (texts w) "::text[])" b c h

add_grouping-Alike :
    (gs hs : List (String × String)) (b c : Built)
    → map (λ g. g.0) gs ≡ map (λ g. g.0) hs
    → Alike b c
    → Alike (add_grouping gs b) (add_grouping hs c)
unfolding add_grouping
add_grouping-Alike [] [] b c e h = h
add_grouping-Alike [] (g ∷ hs) b c e h = cc
add_grouping-Alike (g ∷ gs) [] b c e h = cc
add_grouping-Alike ((d, v) ∷ gs) ((f, w) ∷ hs) b c e h =
    let head : d ≡ f = cc in
    let rest : map (λ g. g.0) gs ≡ map (λ g. g.0) hs = cc in
    let before = λ (x : String). "mr.grouping->>'" ∷ x ∷ "'=" ∷ [] in
    let (p, n) = add_bound-Alike (before d) (text v) (text w) "" b c h in
    add_grouping-Alike gs hs (add_bound (before d) (text v) "" b)
      (add_bound (before f) (text w) "" c) rest
      (
        p ∙ ap (λ x. (add_bound (before x) (text w) "" c).predicates) head,
        n ∙ ap (λ x. length (add_bound (before x) (text w) "" c).values) head,
      )

add_latest-Alike :
    (s t : Supersession) (predicate : String) (b c : Built)
    → s ≡ t
    → Alike b c
    → Alike (add_latest s predicate b) (add_latest t predicate c)
add_latest-Alike latest latest predicate b c e h = add_plain-Alike predicate b c h
add_latest-Alike all_runs all_runs predicate b c e h = h
add_latest-Alike latest all_runs predicate b c e h = cc
add_latest-Alike all_runs latest predicate b c e h = cc

add_after-Alike :
    (o u : Option MetricCursor) (b c : Built)
    → is_some o ≡ is_some u
    → Alike b c
    → Alike (add_after o b) (add_after u c)
unfolding add_after
add_after-Alike none none b c e h = h
add_after-Alike none (some w) b c e h = cc
add_after-Alike (some v) none b c e h = cc
add_after-Alike (some v) (some w) b c e (p, n) =
    let v1 = b.values ++ text v.metric_name ∷ [] in
    let w1 = c.values ++ text w.metric_name ∷ [] in
    let v2 = v1 ++ text v.grouping_digest ∷ [] in
    let w2 = w1 ++ text w.grouping_digest ∷ [] in
    let n1 = pushed-length b.values c.values (text v.metric_name) (text w.metric_name) n in
    let n2 = pushed-length v1 w1 (text v.grouping_digest) (text w.grouping_digest) n1 in
    let n3 = pushed-length v2 w2 (text v.metric_run_id) (text w.metric_run_id) n2 in
    (
      λ i.
          p i
          ++ (literal
                "(mr.metric_name COLLATE \"C\", mr.grouping_digest COLLATE \"C\", mr.metric_run_id COLLATE \"C\")\n      > ("
              ∷ placeholder (n1 i)
              ∷ literal " COLLATE \"C\", "
              ∷ placeholder (n2 i)
              ∷ literal " COLLATE \"C\", "
              ∷ placeholder (n3 i)
              ∷ literal " COLLATE \"C\")"
              ∷ [])
            ∷ [],
      n3,
    )

finished-pieces :
    (head tail : String) (k l : ℕ) (b c : Built)
    → Alike b c
    → (finished head tail k b).pieces ≡ (finished head tail l c).pieces
finished-pieces head tail k l b c (p, n) =
    let size = pushed-length b.values c.values (number (k + 1)) (number (l + 1)) n in
    λ i.
      literal head
      ∷ (join (literal "\n        AND " ∷ []) (p i) ++ literal tail ∷ placeholder (size i) ∷ [])

-- The text of the statement of metrics, and that of the statement of differences, are the same for any two queries
-- that give the same filters, whatever their values, their scopes and their limits are: no value gets into a
-- text.
pub build_queries-pieces :
    (q r : MetricQuery)
    → SameShape q r
    → ((build_metric_query q).pieces ≡ (build_metric_query r).pieces)
      × ((build_difference_query q).pieces ≡ (build_difference_query r).pieces)
unfolding build_metric_query build_difference_query
build_queries-pieces q r s = (
  finished-pieces select_runs order_runs q.limit r.limit (metric_predicates q) (metric_predicates r)
      (add_after-Alike q.after r.after _ _ s.after (
        add_latest-Alike q.supersession r.supersession not_replaced_run _ _ s.supersession (
          add_given-Alike "mr.input_received_at_watermark <= " q.watermark_at_most
            r.watermark_at_most "" _ _ s.watermark
            (add_given-Alike run_date_to q.date_to r.date_to "" _ _ s.to (
              add_given-Alike run_date_from q.date_from r.date_from "" _ _ s.from (
                add_grouping-Alike q.grouping r.grouping _ _ s.dimensions (
                  add_given-Alike "mr.metric_definition_version=" q.metric_definition_version
                    r.metric_definition_version "" _ _ s.version
                    (add_names-Alike q.metric_names r.metric_names
                      (in_scope "mr.tenant_id=" "mr.app_id=" q)
                      (in_scope "mr.tenant_id=" "mr.app_id=" r) s.names (refl, refl))))))))),
  finished-pieces select_results order_results q.limit r.limit (difference_predicates q)
      (difference_predicates r)
      (add_latest-Alike q.supersession r.supersession not_replaced_result _ _ s.supersession (
        add_given-Alike artifact_date_to q.date_to r.date_to "" _ _ s.to (
          add_given-Alike artifact_date_from q.date_from r.date_from "" _ _ s.from (
            add_given-Alike "rr.difference_reason_code=" q.difference_reason_code
              r.difference_reason_code "" (in_scope "rr.tenant_id=" "rr.app_id=" q)
              (in_scope "rr.tenant_id=" "rr.app_id=" r) s.reason (refl, refl))))),
)
