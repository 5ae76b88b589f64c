-- ===== src/Attribution/Reconcile/Laws.antt =====
-- What a reconciliation says of an external snapshot.
use mathlib.Core.List.{Memᴰ}
use mathlib.Core.List.Permᴰ
use mathlib.Core.Path.{subst}
use open_mmp.Common.{
  ◌≡◌, ◌≢◌, ◌↔◌, ◌⊎◌, refl, sym, inl, inr, true, false, List, [], ◌∷◌, map, String, any, Bool-cases,
  arith, eq_iff, list_eq, nat_eq,
}
use open_mmp.Common.Sorting.{sort-Permᴰ, Memᴰ-Permᴰ}
use open_mmp.Common.Members.{Memᴰ-filter, filter-Memᴰ, Memᴰ-map, map-Memᴰ, any_iff}
use open_mmp.Attribution.Reconcile.Keys.{
  WindowStatus, out_of_window, Freshness, stale, matched, MatchingKey, Candidate,
  ReconciliationInput, key_text, is_empty, compare_strings,
}
use open_mmp.Attribution.Reconcile.Reasons.{
  is_out_of_window, is_stale, is_provider_key, shares_key, is_match, matched_candidates, reason_of,
  difference_reason, reconcile,
}

-- A candidate of the input's own tenant and app that has a key in common with it.
abbrev pub Matches : ReconciliationInput → Candidate → Type 0
Matches item c =
    (c.tenant_id ≡ item.tenant_id)
    × (c.app_id ≡ item.app_id)
    × ((k : MatchingKey) × Memᴰ k c.matching_keys
        × ((e : MatchingKey) × Memᴰ e item.matching_keys × (key_text e ≡ key_text k)))

shares_key_iff :
    (item : ReconciliationInput) (c : Candidate)
    → (shares_key item c ≡ true) ↔ (
        (k : MatchingKey) × Memᴰ k c.matching_keys
        × ((e : MatchingKey) × Memᴰ e item.matching_keys × (key_text e ≡ key_text k)))
shares_key_iff item c = any_iff _ _ c.matching_keys (λ k.
    any_iff _ (λ e. key_text e ≡ key_text k) item.matching_keys
      (λ e. (list_eq ⦃e = nat_eq⦄).beq_iff (key_text e) (key_text k)))

is_match_iff :
    (item : ReconciliationInput) (c : Candidate) → (is_match item c ≡ true) ↔ Matches item c
is_match_iff item c =
    let (to, from) = shares_key_iff item c in
    let t = eq_iff c.tenant_id item.tenant_id in
    let p = eq_iff c.app_id item.app_id in
    (
      λ h. (t.0 (ground arith), p.0 (ground arith), to (ground arith)),
      λ (a, b, k). let x = t.1 a in let y = p.1 b in let z = from k in ground (arith, x, y, z),
    )

-- The candidates that the result names are those of the input that match it.
pub reconcile-candidates_iff :
    (item : ReconciliationInput) (id : String)
    → Memᴰ id (reconcile item).candidates
      ↔ ((c : Candidate) × Memᴰ c item.candidates × (id ≡ c.candidate_id) × Matches item c)
unfolding reconcile
reconcile-candidates_iff item id =
    let ids = map (λ c. c.candidate_id) (matched_candidates item) in
    let p = sort-Permᴰ compare_strings ids in
    (
      λ m.
          let (c, n, e) = Memᴰ-map (λ c. c.candidate_id) _ id (Memᴰ-Permᴰ id p m) in
          let (q, t) = Memᴰ-filter (is_match item) item.candidates c n in
          (c, q, e, (is_match_iff item c).0 t),
      λ (c, m, e, f).
          let n = filter-Memᴰ (is_match item) item.candidates c m ((is_match_iff item c).1 f) in
          let there = map-Memᴰ (λ c. c.candidate_id) _ c n in
          Memᴰ-Permᴰ id (Permᴰ.symm p) (rw e there),
    )

sole : (cs : List Candidate) → is_empty cs ≡ true → cs ≡ []
sole [] h = refl
sole (c ∷ cs) h = cc h

member-not_empty {ℓ} : {A : Type ℓ} (x : A) (xs : List A) → Memᴰ x xs → is_empty xs ≡ false
member-not_empty x [] m = elim m [ ]
member-not_empty x (y ∷ ys) m = refl

-- The first matched candidate is neither excluded nor out of the window nor stale, and the only one if
-- some key is one-to-one.
abbrev pub Agrees : ReconciliationInput → List Candidate → Type 0
Agrees item [] = ⊥
Agrees item (c ∷ rest) =
    (c.excluded ≡ false)
    × (c.window_status ≢ out_of_window)
    × (c.freshness ≢ stale)
    × ((rest ≡ []) ⊎ (any (λ k. k.one_to_one) item.matching_keys ≡ false))

is_out_of_window_iff : (w : WindowStatus) → (is_out_of_window w ≡ false) ↔ (w ≢ out_of_window)
is_out_of_window_iff WindowStatus.in_window = (λ h e. cc, λ n. refl)
is_out_of_window_iff out_of_window = (λ h e. cc, λ n. elim (n refl) [ ])
is_out_of_window_iff WindowStatus.not_applicable = (λ h e. cc, λ n. refl)

is_stale_iff : (f : Freshness) → (is_stale f ≡ false) ↔ (f ≢ stale)
is_stale_iff Freshness.current = (λ h e. cc, λ n. refl)
is_stale_iff stale = (λ h e. cc, λ n. elim (n refl) [ ])
is_stale_iff Freshness.recalculated = (λ h e. cc, λ n. refl)

reason_of-matched_iff :
    (item : ReconciliationInput) (found : List Candidate)
    → (reason_of item found ≡ matched) ↔ Agrees item found
reason_of-matched_iff item [] = (
  λ h. elim (Bool-cases (any is_provider_key item.matching_keys)) [
    | inl t ↦ cc (rw t at h)
    | inr t ↦ cc (rw t at h)
  ],
  λ h. elim h [ ],
)
reason_of-matched_iff item (c ∷ rest) =
    let w = is_out_of_window_iff c.window_status in
    let f = is_stale_iff c.freshness in
    (
      λ h.
          let x : c.excluded ≡ false = ground arith in
          let y : is_out_of_window c.window_status ≡ false = ground arith in
          let z : is_stale c.freshness ≡ false = ground arith in
          (
            x,
            w.0 y,
            f.0 z,
            elim (Bool-cases (any (λ k. k.one_to_one) item.matching_keys)) [
              | inr t ↦ inr t
              | inl t ↦ inl (sole rest (ground arith))
            ],
          ),
      λ (x, y, z, u).
          let y' = w.1 y in
          let z' = f.1 z in
          elim u [
            | inl e ↦ rw e (ground (arith, x, y', z'))
            | inr t ↦ ground (arith, x, y', z', t)
          ],
    )

-- A key that a candidate shares is a key of the input.
match-keys :
    (item : ReconciliationInput) (c : Candidate) (rest : List Candidate)
    → matched_candidates item ≡ c ∷ rest
    → is_empty item.matching_keys ≡ false
match-keys item c rest h =
    let m = subst (Memᴰ c) (sym h) (Memᴰ.head refl) in
    let (n, t) = Memᴰ-filter (is_match item) item.candidates c m in
    let (_, _, (k, _, (e, q, _))) = (is_match_iff item c).0 t in
    member-not_empty e item.matching_keys q

difference_reason-matched_iff :
    (item : ReconciliationInput) (found : List Candidate)
    → matched_candidates item ≡ found
    → (difference_reason item found ≡ matched) ↔ ((item.redacted ≡ false) × Agrees item found)
difference_reason-matched_iff item [] e = (λ h. ground arith, λ (_, b). elim b [ ])
difference_reason-matched_iff item (c ∷ rest) e =
    let keys = match-keys item c rest e in
    let (to, from) = reason_of-matched_iff item (c ∷ rest) in
    (
      λ h.
          let a : item.redacted ≡ false = ground arith in
          let b : reason_of item (c ∷ rest) ≡ matched = ground arith in (a, to b),
      λ (a, b). let r = from b in ground (arith, a, r, keys),
    )

-- A reconciliation finds no difference exactly if the input is not redacted and the first of the
-- candidates that match it is neither excluded nor out of the window nor stale, and the only one if some
-- key is one-to-one.
pub reconcile-matched_iff :
    (item : ReconciliationInput)
    → ((reconcile item).difference_reason_code ≡ matched)
      ↔ ((item.redacted ≡ false) × Agrees item (matched_candidates item))
unfolding reconcile
reconcile-matched_iff item = difference_reason-matched_iff item (matched_candidates item) refl
