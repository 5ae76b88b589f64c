-- ===== src/Redirector/Parameters/Laws.antt =====
-- Which parameters of a query are bound, and to what.
use mathlib.Core.Path.{subst}
use open_mmp.Common.{
  ◌+◌, ◌≡◌, inl, inr, refl, sym, ◌∙◌, true, ◌&&◌, List, [], ◌∷◌, Option, none, some, String, str_eq,
  eq_iff, lookup, lookup-insert, string_eq, any, length, filter, arith, Bool-cases, Option-cases,
  if◌then◌else◌, is_some,
}
use open_mmp.Redirector.Parameters.{
  strip_prefix, is_token, admitted_value, admitted, Bound, bind_one, bind_from,
  bind_deep_link_parameters,
}

-- The last pair of a query that gives the name a value, in the pairs that are admitted.
abbrev pub last_value : List String → String → List (String × String) → Option String
last_value declared name [] = none
last_value declared name (p ∷ source) = elim (last_value declared name source) [
  | some v ↦ some v
  | none ↦ elim (admitted declared p) [
    | none ↦ none
    | some q ↦ if str_eq q.0 name then some q.1 else none
  ]
]

abbrev over : Option String → Option String → Option String
over (some v) w = some v
over none w = w

bind_from-lookup :
    (declared : List String) (b : Bound) (source : List (String × String)) (name : String)
    → lookup name (bind_from declared b source).values
      ≡ over (last_value declared name source) (lookup name b.values)
unfolding bind_from
bind_from-lookup declared b [] name = refl
bind_from-lookup declared b (p ∷ source) name =
    let ih = bind_from-lookup declared (bind_one b (admitted declared p)) source name in
    elim (Option-cases (admitted declared p)) [
      | inl e ↦ ih ∙ ground (arith, e)
      | inr (q, e) ↦ ih ∙ ground (arith, e, lookup-insert q.0 name q.1 b.values)
    ]

bind_from-dropped :
    (declared : List String) (b : Bound) (source : List (String × String))
    → (bind_from declared b source).dropped
        + length (filter (λ p. is_some (admitted declared p)) source)
      ≡ b.dropped + length source
unfolding bind_from
bind_from-dropped declared b [] = ground arith
bind_from-dropped declared b (p ∷ source) =
    let ih = bind_from-dropped declared (bind_one b (admitted declared p)) source in
    elim (Option-cases (admitted declared p)) [
      | inl e ↦ ground (arith, ih, e)
      | inr (q, e) ↦ ground (arith, ih, e)
    ]

-- A name that the link declares, with a value of one to 64 unreserved characters.
abbrev pub IsSafe : List String → String → String → Type 0
IsSafe declared name value = (any (λ d. str_eq d name) declared ≡ true) × (is_token value ≡ true)

admitted_value-IsSafe :
    (declared : List String) (value : String) (o : Option String) (q : String × String)
    → admitted_value declared value o ≡ some q
    → IsSafe declared q.0 q.1
admitted_value-IsSafe declared value none q h = cc
admitted_value-IsSafe declared value (some name) q h =
    elim (Bool-cases (any (λ d. str_eq d name) declared && is_token value)) [
      | inr t ↦ absurd (cc (rw t at h))
      | inl t ↦
          let same : some (name, value) ≡ some q = rw t at h in
          let at : (name, value) ≡ q = cc in
          subst (λ (x : String × String). IsSafe declared x.0 x.1) at (ground arith, ground arith)
    ]

admitted-IsSafe :
    (declared : List String) (p q : String × String)
    → admitted declared p ≡ some q
    → IsSafe declared q.0 q.1
unfolding admitted
admitted-IsSafe declared (name, value) q h =
    admitted_value-IsSafe declared value (strip_prefix "dlp_" name) q h

last_value-IsSafe :
    (declared : List String) (source : List (String × String)) (name value : String)
    → last_value declared name source ≡ some value
    → IsSafe declared name value
last_value-IsSafe declared [] name value h = cc
last_value-IsSafe declared (p ∷ source) name value h =
    elim (Option-cases (last_value declared name source)) [
      | inr (v, e) ↦
          let same : v ≡ value = cc (rw e at h) in
          subst (IsSafe declared name) same (last_value-IsSafe declared source name v e)
      | inl e ↦ elim (Option-cases (admitted declared p)) [
        | inl f ↦ absurd (cc (rw (e, f) at h))
        | inr (q, f) ↦ elim (Bool-cases (str_eq q.0 name)) [
          | inr t ↦ absurd (cc (rw (e, f, t) at h))
          | inl t ↦
              let same : q.1 ≡ value = cc (rw (e, f, t) at h) in
              let named : q.0 ≡ name = (eq_iff q.0 name).0 t in
              let safe = admitted-IsSafe declared p q f in
              subst (IsSafe declared name) same (subst (λ n. IsSafe declared n q.1) named safe)
        ]
      ]
    ]

-- A name is bound to the last value that an admitted pair of the query gives it, and to none if
-- there is no such pair; whatever is bound is a declared name with a value of one to 64
-- unreserved characters; and every pair that is not admitted is counted as dropped.
pub bind_deep_link_parameters-values :
    (source : List (String × String)) (declared : List String)
    → ((name : String)
        → (lookup name (bind_deep_link_parameters source declared).values
            ≡ last_value declared name source)
          × ((value : String)
              → lookup name (bind_deep_link_parameters source declared).values ≡ some value
              → IsSafe declared name value))
      × ((bind_deep_link_parameters source declared).dropped
            + length (filter (λ p. is_some (admitted declared p)) source)
          ≡ length source)
unfolding bind_deep_link_parameters
bind_deep_link_parameters-values source declared =
    let b : Bound = record { values = []; dropped = 0 } in
    let at : (name : String)
        → lookup name (bind_from declared b source).values ≡ last_value declared name source =
      λ name. bind_from-lookup declared b source name ∙ ground arith in
    (
      λ name.
          (at name, λ value h. last_value-IsSafe declared source name value (sym (at name) ∙ h)),
      omega (arith, bind_from-dropped declared b source),
    )
