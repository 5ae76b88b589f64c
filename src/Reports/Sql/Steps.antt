-- ===== src/Reports/Sql/Steps.antt =====
-- What each step of building a statement does to the predicates with their values put in.
use mathlib.Core.List.{append-nil, append_assoc}
use open_mmp.Common.Pointwise.{Pointwise, Pointwise-append, Pointwise-mono}
use open_mmp.Common.{
  Option-cases, ℕ, zero, suc, ◌≡◌, refl, sym, ap, ◌∙◌, inl, inr, List, [], ◌∷◌, ◌++◌, map, Option,
  none, some, String, str_eq, length, length-append, Bool-cases, arith, if◌then◌else◌,
}
use open_mmp.Reports.Query.{Supersession, latest, all_runs, MetricCursor}
use open_mmp.Reports.Sql.{
  Value, text, texts, Piece, literal, placeholder, Built, push, join, add_plain, add_bound,
  add_given, add_names, add_grouping, add_latest, add_after,
}

-- A piece of a statement with its value in its place.
pub data Part : Type 0 where
  sql : String → Part
  bound : Value → Part

unfoldable pub value_at : List Value → ℕ → Option Value
value_at [] n = none
value_at (v ∷ vs) zero = some v
value_at (v ∷ vs) (suc n) = value_at vs n

abbrev pub in_place : Option Value → Option Part
in_place none = none
in_place (some v) = some (bound v)

-- The values are counted from 1.
unfoldable pub resolve : List Value → Piece → Option Part
resolve values (literal s) = some (sql s)
resolve values (placeholder zero) = none
resolve values (placeholder (suc n)) = in_place (value_at values n)

value_at-append :
    (vs ws : List Value) (n : ℕ) {v : Value}
    → value_at vs n ≡ some v
    → value_at (vs ++ ws) n ≡ some v
unfolding value_at
value_at-append [] ws n h = cc
value_at-append (v ∷ vs) ws zero h = h
value_at-append (v ∷ vs) ws (suc n) h = value_at-append vs ws n h

value_at-last : (vs : List Value) (v : Value) → value_at (vs ++ v ∷ []) (length vs) ≡ some v
unfolding value_at
value_at-last [] v = refl
value_at-last (u ∷ vs) v = value_at-last vs v

abbrev pub IsPart : List Value → Piece → Part → Type 0
IsPart values p x = resolve values p ≡ some x

-- A piece that stands for a part keeps it when values are pushed.
IsPart-append : (vs ws : List Value) (p : Piece) (x : Part) → IsPart vs p x → IsPart (vs ++ ws) p x
unfolding resolve
IsPart-append vs ws (literal s) x h = h
IsPart-append vs ws (placeholder zero) x h = cc
IsPart-append vs ws (placeholder (suc n)) x h = elim (Option-cases (value_at vs n)) [
  | inl e ↦ cc (rw e at h)
  | inr (v, e) ↦ ap in_place (value_at-append vs ws n e) ∙ sym (ap in_place e) ∙ h
]

-- The placeholder of a new value stands for it.
pub IsPart-push : (vs : List Value) (v : Value) → IsPart (push vs v).0 (push vs v).1 (bound v)
unfolding resolve
IsPart-push vs v =
    let size : length (vs ++ v ∷ []) ≡ suc (length vs) = omega (arith, length-append vs (v ∷ [])) in
    rw (size, value_at-last vs v) refl

abbrev pub Reads : List Value → List Piece → List Part → Type 0
Reads values = Pointwise (IsPart values)

abbrev pub Stands : List Value → List (List Piece) → List (List Part) → Type 0
Stands values = Pointwise (Reads values)

pub Reads-push :
    (vs ws : List Value) (ps : List Piece) (xs : List Part)
    → Reads vs ps xs
    → Reads (vs ++ ws) ps xs
Reads-push vs ws = Pointwise-mono (IsPart vs) (IsPart (vs ++ ws)) (IsPart-append vs ws)

pub Stands-push :
    (vs ws : List Value) (ps : List (List Piece)) (xs : List (List Part))
    → Stands vs ps xs
    → Stands (vs ++ ws) ps xs
Stands-push vs ws = Pointwise-mono (Reads vs) (Reads (vs ++ ws)) (Reads-push vs ws)

pub Reads-literals : (vs : List Value) (ss : List String) → Reads vs (map literal ss) (map sql ss)
unfolding resolve
Reads-literals vs [] = tt
Reads-literals vs (s ∷ ss) = (refl, Reads-literals vs ss)

pub Stands-join :
    (vs : List Value) (s : String) (ps : List (List Piece)) (xs : List (List Part))
    → Stands vs ps xs
    → Reads vs (join (literal s ∷ []) ps) (join (sql s ∷ []) xs)
unfolding resolve
Stands-join vs s [] [] h = tt
Stands-join vs s (p ∷ []) (x ∷ []) (h, k) = h
Stands-join vs s (p ∷ q ∷ ps) (x ∷ y ∷ xs) (h, k) =
    Pointwise-append (IsPart vs) p x _ _ h (refl, Stands-join vs s (q ∷ ps) (y ∷ xs) k)
Stands-join vs s [] (x ∷ xs) h = elim h [ ]
Stands-join vs s (p ∷ ps) [] h = elim h [ ]
Stands-join vs s (p ∷ []) (x ∷ y ∷ xs) (h, k) = elim k [ ]
Stands-join vs s (p ∷ q ∷ ps) (x ∷ []) (h, k) = elim k [ ]

-- What is built so far, with its values in their places.
abbrev pub BuiltAs : Built → List (List Part) → Type 0
BuiltAs b = Stands b.values b.predicates

pub add_plain-BuiltAs :
    (s : String) (b : Built) (xs : List (List Part))
    → BuiltAs b xs
    → BuiltAs (add_plain s b) (xs ++ (sql s ∷ []) ∷ [])
unfolding add_plain resolve
add_plain-BuiltAs s b xs h =
    Pointwise-append (Reads b.values) b.predicates xs _ _ h ((refl, tt), tt)

pub add_bound-BuiltAs :
    (before : List String) (v : Value) (after : String) (b : Built) (xs : List (List Part))
    → BuiltAs b xs
    → BuiltAs (add_bound before v after b) (xs ++ (map sql before ++ bound v ∷ sql after ∷ []) ∷ [])
unfolding add_bound
add_bound-BuiltAs before v after b xs h =
    let vs = b.values ++ v ∷ [] in
    Pointwise-append (Reads vs) b.predicates xs _ _
      (Stands-push b.values (v ∷ []) b.predicates xs h)
      (
        Pointwise-append (IsPart vs) (map literal before) (map sql before) _ _
            (Reads-literals vs before) (IsPart-push b.values v, (unfold resolve in refl, tt)),
        tt,
      )

keep : (b : Built) (xs : List (List Part)) → BuiltAs b xs → BuiltAs b (xs ++ [])
keep b xs h = rw (append-nil xs) h

-- The predicates of a filter that may be left out, of the names and of the dimensions.
abbrev pub given_parts : String → Option String → String → List (List Part)
given_parts before none after = []
given_parts before (some value) after =
    if str_eq value "" then [] else (sql before ∷ bound (text value) ∷ sql after ∷ []) ∷ []

pub add_given-BuiltAs :
    (before : String) (o : Option String) (after : String) (b : Built) (xs : List (List Part))
    → BuiltAs b xs
    → BuiltAs (add_given before o after b) (xs ++ given_parts before o after)
add_given-BuiltAs before none after b xs h = keep b xs h
add_given-BuiltAs before (some value) after b xs h = elim (Bool-cases (str_eq value "")) [
  | inl t ↦ rw t (keep b xs h)
  | inr t ↦ rw t (add_bound-BuiltAs (before ∷ []) (text value) after b xs h)
]

abbrev pub name_parts : Option (List String) → List (List Part)
name_parts none = []
name_parts (some names) =
    (sql "mr.metric_name=ANY(" ∷ bound (texts names) ∷ sql "::text[])" ∷ []) ∷ []

pub add_names-BuiltAs :
    (o : Option (List String)) (b : Built) (xs : List (List Part))
    → BuiltAs b xs
    → BuiltAs (add_names o b) (xs ++ name_parts o)
add_names-BuiltAs none b xs h = keep b xs h
add_names-BuiltAs (some names) b xs h =
    add_bound-BuiltAs ("mr.metric_name=ANY(" ∷ []) (texts names) "::text[])" b xs h

abbrev pub grouping_part : String × String → List Part
grouping_part (dimension, value) =
    sql "mr.grouping->>'" ∷ sql dimension ∷ sql "'=" ∷ bound (text value) ∷ sql "" ∷ []

pub add_grouping-BuiltAs :
    (grouping : List (String × String)) (b : Built) (xs : List (List Part))
    → BuiltAs b xs
    → BuiltAs (add_grouping grouping b) (xs ++ map grouping_part grouping)
unfolding add_grouping
add_grouping-BuiltAs [] b xs h = keep b xs h
add_grouping-BuiltAs ((dimension, value) ∷ grouping) b xs h =
    let before = "mr.grouping->>'" ∷ dimension ∷ "'=" ∷ [] in
    let next = add_bound before (text value) "" b in
    let step = add_bound-BuiltAs before (text value) "" b xs h in
    rw (← append_assoc xs (grouping_part (dimension, value) ∷ []) (map grouping_part grouping))
      (add_grouping-BuiltAs grouping next (xs ++ grouping_part (dimension, value) ∷ []) step)

abbrev pub latest_parts : Supersession → String → List (List Part)
latest_parts latest predicate = (sql predicate ∷ []) ∷ []
latest_parts all_runs predicate = []

pub add_latest-BuiltAs :
    (s : Supersession) (predicate : String) (b : Built) (xs : List (List Part))
    → BuiltAs b xs
    → BuiltAs (add_latest s predicate b) (xs ++ latest_parts s predicate)
add_latest-BuiltAs latest predicate b xs h = add_plain-BuiltAs predicate b xs h
add_latest-BuiltAs all_runs predicate b xs h = keep b xs h

abbrev pub after_parts : Option MetricCursor → List (List Part)
after_parts none = []
after_parts (some c) =
    (sql
        "(mr.metric_name COLLATE \"C\", mr.grouping_digest COLLATE \"C\", mr.metric_run_id COLLATE \"C\")\n      > ("
      ∷ bound (text c.metric_name)
      ∷ sql " COLLATE \"C\", "
      ∷ bound (text c.grouping_digest)
      ∷ sql " COLLATE \"C\", "
      ∷ bound (text c.metric_run_id)
      ∷ sql " COLLATE \"C\")"
      ∷ [])
    ∷ []

pub add_after-BuiltAs :
    (o : Option MetricCursor) (b : Built) (xs : List (List Part))
    → BuiltAs b xs
    → BuiltAs (add_after o b) (xs ++ after_parts o)
unfolding add_after
add_after-BuiltAs none b xs h = keep b xs h
add_after-BuiltAs (some c) b xs h =
    let v1 = b.values ++ text c.metric_name ∷ [] in
    let v2 = v1 ++ text c.grouping_digest ∷ [] in
    let v3 = v2 ++ text c.metric_run_id ∷ [] in
    let g : IsPart v2 (placeholder (length v2)) (bound (text c.grouping_digest)) =
      IsPart-push v1 (text c.grouping_digest) in
    let m1 : IsPart v1 (placeholder (length v1)) (bound (text c.metric_name)) =
      IsPart-push b.values (text c.metric_name) in
    let m2 =
      IsPart-append v1 (text c.grouping_digest ∷ []) (placeholder (length v1))
        (bound (text c.metric_name)) m1 in
    let m3 =
      IsPart-append v2 (text c.metric_run_id ∷ []) (placeholder (length v1))
        (bound (text c.metric_name)) m2 in
    let g3 =
      IsPart-append v2 (text c.metric_run_id ∷ []) (placeholder (length v2))
        (bound (text c.grouping_digest)) g in
    let s1 = Stands-push b.values (text c.metric_name ∷ []) b.predicates xs h in
    let s2 = Stands-push v1 (text c.grouping_digest ∷ []) b.predicates xs s1 in
    let s3 = Stands-push v2 (text c.metric_run_id ∷ []) b.predicates xs s2 in
    Pointwise-append (Reads v3) b.predicates xs _ _ s3 (
      unfold resolve in
          (refl, (m3, (refl, (g3, (refl, (IsPart-push v2 (text c.metric_run_id), (refl, tt))))))),
      tt,
    )
