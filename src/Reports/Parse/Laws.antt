-- ===== src/Reports/Parse/Laws.antt =====
-- What a query that `parseMetricQuery` returns is like.
use mathlib.Core.List.{Memᴰ}
use mathlib.Core.Path.{subst}
use open_mmp.Common.{
  ℕ, ◌≤◌, ◌≡◌, refl, sym, ap, ◌∙◌, inl, inr, Bool, true, false, not, ◌&&◌, ◌||◌, List, [], ◌∷◌,
  Option, none, some, String, str_eq, leb, any, or_else, eq_iff, string_eq, lookup, Bool-cases,
  Option-cases, arith, if◌then◌else◌, All, ok, throw, >>=-eq-ok, ◌>>=◌,
}
use open_mmp.Common.Members.{filter-Memᴰ}
use open_mmp.Attribution.Metrics.Definitions.{contains}
use open_mmp.Reports.Query.{
  Format, json, csv, ReportQueryError, grouping_key, transport_keys, is_grouping_value,
  grouping_value_invalid,
}
use open_mmp.Reports.Filters.{
  Params, Parsed, ensure, one, passes, check_keys, is_csv, parse_export, parse_one, with_dimension,
  parse_grouping, limit_of, within_limit, parse_limit,
}
use open_mmp.Reports.Series.{
  aggregate_metric_names, deterministic_only_dimensions, is_given, is_empty, selected_aggregate,
  check_series,
}

ensure-true : (b : Bool) (e : ReportQueryError) → ensure b e ≡ ok tt → b ≡ true
ensure-true true e h = refl
ensure-true false e h = cc

-- A check and what follows it.
pub ensure-next {ℓ} :
    {A : Type ℓ} (b : Bool) (e : ReportQueryError) (next : Parsed A) {r : A}
    → (ensure b e >>= λ _. next) ≡ ok r
    → (b ≡ true) × (next ≡ ok r)
ensure-next true e next h = (refl, h)
ensure-next false e next h = cc

pub check_keys-known :
    (params : Params)
    → check_keys params ≡ ok tt
    → All (λ p. contains p.0 transport_keys ≡ true) params
unfolding check_keys
check_keys-known [] h = tt
check_keys-known ((key, value) ∷ params) h =
    let (_, h1) = ensure-next _ _ _ h in
    let (known, h2) = ensure-next (contains key transport_keys) _ (check_keys params) h1 in
    (known, check_keys-known params h2)

pub parse_one-passes :
    (params : Params) (key : String) (p : String → Bool) (e : ReportQueryError) {o : Option String}
    → parse_one params key p e ≡ ok o
    → passes p o ≡ true
unfolding parse_one
parse_one-passes params key p e {o} h =
    let (value, found, h1) = >>=-eq-ok (one params key) _ h in
    let (fits, h2) = ensure-next (passes p value) e (ok value) h1 in
    ap (λ x. elim x [ ok v ↦ passes p v | throw _ ↦ true ]) (sym h2) ∙ fits

abbrev pub IsDimension : List String → String × String → Type 0
IsDimension dimensions (dimension, value) =
    (contains dimension dimensions ≡ true) × (is_grouping_value dimension value ≡ true)

IsDimension-later :
    (dimension : String) (dimensions : List String) (grouping : List (String × String))
    → All (IsDimension dimensions) grouping
    → All (IsDimension (dimension ∷ dimensions)) grouping
IsDimension-later dimension dimensions [] h = tt
IsDimension-later dimension dimensions ((d, v) ∷ grouping) ((t, fits), rest) =
    ((ground (arith, t), fits), IsDimension-later dimension dimensions grouping rest)

with_dimension-IsDimension :
    (dimension : String) (dimensions : List String) (o : Option String)
    (grouping : List (String × String))
    → passes (is_grouping_value dimension) o ≡ true
    → All (IsDimension dimensions) grouping
    → All (IsDimension (dimension ∷ dimensions)) (with_dimension dimension o grouping)
with_dimension-IsDimension dimension dimensions none grouping p h =
    IsDimension-later dimension dimensions grouping h
with_dimension-IsDimension dimension dimensions (some v) grouping p h =
    let same = (eq_iff dimension dimension).1 refl in
    ((rw same refl, p), IsDimension-later dimension dimensions grouping h)

-- What an outcome returned, for a family over it.
pub ok-subst {ℓ} :
    {A : Type ℓ} (P : A → Type 0) {a b : A} → ◌≡◌ {A = Parsed A} (ok a) (ok b) → P a → P b
ok-subst P {a} {b} h p = subst P (ap (λ o. elim o [ ok x ↦ x | throw _ ↦ a ]) h) p

pub parse_grouping-IsDimension :
    (dimensions : List String) (params : Params) {grouping : List (String × String)}
    → parse_grouping dimensions params ≡ ok grouping
    → All (IsDimension dimensions) grouping
unfolding parse_grouping
parse_grouping-IsDimension [] params h = ok-subst (All (IsDimension [])) h tt
parse_grouping-IsDimension (dimension ∷ dimensions) params h =
    let (value, found, h1) =
      >>=-eq-ok
        (parse_one params (grouping_key dimension) (is_grouping_value dimension)
          grouping_value_invalid)
        _ h in
    let (rest, parsed, h2) = >>=-eq-ok (parse_grouping dimensions params) _ h1 in
    let fits =
      parse_one-passes params (grouping_key dimension) (is_grouping_value dimension)
        grouping_value_invalid found in
    ok-subst (All (IsDimension (dimension ∷ dimensions))) h2 (
      with_dimension-IsDimension dimension dimensions value rest fits
        (parse_grouping-IsDimension dimensions params parsed))

csv_only :
    (value : String) (format : Format)
    → (not (str_eq value "true") || is_csv format) ≡ true
    → str_eq value "true" ≡ true
    → format ≡ csv
csv_only value csv h t = refl
csv_only value json h t = absurd (ground (arith, t))

pub parse_export-csv :
    (params : Params) (format : Format) {export : Bool}
    → parse_export params format ≡ ok export
    → export ≡ true
    → format ≡ csv
unfolding parse_export
parse_export-csv params format {export} h =
    let (given, found, h1) = >>=-eq-ok (one params "export") _ h in
    let (known, h2) = ensure-next _ _ _ h1 in
    let (only, h3) =
      ensure-next (not (str_eq (or_else given "false") "true") || is_csv format) _ _ h2 in
    ok-subst (λ e. e ≡ true → format ≡ csv) h3 (csv_only (or_else given "false") format only)

within_limit-bounds :
    (maximum : ℕ) (o : Option ℕ) {n : ℕ} → within_limit maximum o ≡ ok n → (1 ≤ n) × (n ≤ maximum)
within_limit-bounds maximum none h = cc
within_limit-bounds maximum (some k) {n} h = elim (Bool-cases (leb 1 k && leb k maximum)) [
  | inl t ↦ ok-subst (λ n. (1 ≤ n) × (n ≤ maximum)) (rw t at h) (ground arith)
  | inr t ↦ cc (rw t at h)
]

pub parse_limit-bounds :
    (number_of : String → Option ℕ) (params : Params) (export : Bool) (rows export_rows : ℕ) {n : ℕ}
    → parse_limit number_of params export rows export_rows ≡ ok n
    → (1 ≤ n) × (n ≤ (if export then export_rows else rows))
unfolding parse_limit
parse_limit-bounds number_of params export rows export_rows h =
    let (given, found, h1) = >>=-eq-ok (one params "limit") _ h in
    within_limit-bounds (if export then export_rows else rows)
      (limit_of number_of (if export then export_rows else 200) given) h1

-- A metric of aggregate postbacks is not asked for with a dimension that only other metrics have.
abbrev pub KeepsSeries : List String → List (String × String) → Type 0
KeepsSeries names grouping =
    (name dimension : String)
    → Memᴰ name names
    → contains name aggregate_metric_names ≡ true
    → Memᴰ dimension deterministic_only_dimensions
    → lookup dimension grouping ≡ none

empty-absent : (xs : List String) (x : String) → is_empty xs ≡ true → Memᴰ x xs → ⊥
empty-absent [] x h m = elim m [ ]
empty-absent (y ∷ ys) x h m = cc

any-false :
    (p : String → Bool) (xs : List String) (x : String) → any p xs ≡ false → Memᴰ x xs → p x ≡ false
any-false p [] x h m = elim m [ ]
any-false p (y ∷ ys) x h (Memᴰ.head e) = ap p e ∙ ground (arith, h)
any-false p (y ∷ ys) x h (Memᴰ.tail m) = any-false p ys x (ground (arith, h)) m

absent-none :
    (grouping : List (String × String)) (d : String)
    → is_given grouping d ≡ false
    → lookup d grouping ≡ none
absent-none grouping d h = elim (Option-cases (lookup d grouping)) [
  | inl e ↦ e
  | inr (v, e) ↦ cc (rw e at h)
]

pub check_series-KeepsSeries :
    (names : List String) (grouping : List (String × String))
    → check_series names grouping ≡ ok tt
    → KeepsSeries names grouping
unfolding check_series
check_series-KeepsSeries names grouping h name d m a k =
    let none_selected = is_empty (selected_aggregate names) in
    let none_given = any (is_given grouping) deterministic_only_dimensions in
    let (kept, rest) = ensure-next (none_selected || not none_given) _ _ h in
    elim (Bool-cases none_selected) [
      | inl t ↦ absurd (
          empty-absent (selected_aggregate names) name t
            (filter-Memᴰ (λ n. contains n aggregate_metric_names) names name m a))
      | inr t ↦ absent-none grouping d (
          any-false (is_given grouping) deterministic_only_dimensions d (ground (arith, kept, t)) k)
    ]
