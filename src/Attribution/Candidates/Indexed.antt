-- ===== src/Attribution/Candidates/Indexed.antt =====
-- The indexed provider answers every question as the filtering one does.
use mathlib.Core.Path.{fun_ext}
use mathlib.Core.List.{append-nil, append_assoc}
use open_mmp.Common.{
  ◌≡◌, refl, sym, ◌∙◌, Bool, true, false, ◌&&◌, List, [], ◌∷◌, ◌++◌, Option, String, str_eq, opt_eq,
  filter, lookup-insert, if◌then◌else◌, Eq, string_eq, arith, Bool-cases, inl, inr, filter_congr,
}
use open_mmp.Attribution.Types.{CandidateAttempt}
use open_mmp.Attribution.Candidates.{
  CompositeKey, key_eq, scope_key, click_key, is_click, fixture_provider, Index, values_of, add,
  index_attempt, index_attempts, no_index, indexed_provider,
}

module _ {ℓ} {K : Type ℓ} ⦃e : Eq K⦄ where
  values_of-add :
      (index : List (K × List CandidateAttempt)) (key k : K) (a : CandidateAttempt)
      → values_of k (add index key a)
        ≡ (if e.beq key k then values_of k index ++ a ∷ [] else values_of k index)
  values_of-add index key k a =
      ground (arith, lookup-insert key k (values_of key index ++ a ∷ []) index, e.beq_iff key k)

  -- One step of an index against one step of a filter.
  step :
      (index : List (K × List CandidateAttempt)) (key k : K) (a : CandidateAttempt)
      (rest : List CandidateAttempt)
      → values_of k (add index key a) ++ rest
        ≡ values_of k index ++ (if e.beq key k then a ∷ rest else rest)
  step index key k a rest = elim (Bool-cases (e.beq key k)) [
    | inl t ↦ simp (values_of-add, t, append_assoc)
    | inr t ↦ simp (values_of-add, t)
  ]

  step_when :
      (b : Bool) (index : List (K × List CandidateAttempt)) (key k : K) (a : CandidateAttempt)
      (rest : List CandidateAttempt)
      → values_of k (if b then add index key a else index) ++ rest
        ≡ values_of k index ++ (if b && e.beq key k then a ∷ rest else rest)
  step_when true index key k a rest = step index key k a rest
  step_when false index key k a rest = refl

records-index :
    (i : Index) (xs : List CandidateAttempt) (k : String)
    → values_of k (index_attempts i xs).records
      ≡ values_of k i.records ++ filter (λ c. str_eq c.event.record_id k) xs
unfolding index_attempts
records-index i [] k = sym (append-nil _)
records-index i (a ∷ xs) k =
    records-index (index_attempt i a) xs k ∙ step i.records a.event.record_id k a _

scopes-index :
    (i : Index) (xs : List CandidateAttempt) (k : CompositeKey)
    → values_of ⦃e = key_eq⦄ k (index_attempts i xs).logical_scopes
      ≡ values_of ⦃e = key_eq⦄ k i.logical_scopes ++ filter (λ c. key_eq.beq (scope_key c) k) xs
unfolding index_attempts
scopes-index i [] k = sym (append-nil _)
scopes-index i (a ∷ xs) k =
    scopes-index (index_attempt i a) xs k ∙ step ⦃e = key_eq⦄ i.logical_scopes (scope_key a) k a _

abbrev key_of_click : CandidateAttempt → CompositeKey
key_of_click c = click_key c.server.tenant_id c.server.app_id c.event.payload.click_id

clicks-index :
    (i : Index) (xs : List CandidateAttempt) (k : CompositeKey)
    → values_of ⦃e = key_eq⦄ k (index_attempts i xs).clicks
      ≡ values_of ⦃e = key_eq⦄ k i.clicks
        ++ filter (λ c. is_click c && key_eq.beq (key_of_click c) k) xs
unfolding index_attempts
clicks-index i [] k = sym (append-nil _)
clicks-index i (a ∷ xs) k =
    clicks-index (index_attempt i a) xs k
    ∙ step_when ⦃e = key_eq⦄ (is_click a) i.clicks (key_of_click a) k a _

-- A click's key is the asked one exactly if tenant, app and click id are.
key_of_click-beq :
    (tenant_id app_id : String) (click_id : Option String) (c : CandidateAttempt)
    → (is_click c && key_eq.beq (key_of_click c) (click_key tenant_id app_id click_id)) ≡ (
        str_eq c.server.tenant_id tenant_id
        && str_eq c.server.app_id app_id
        && is_click c
        && opt_eq c.event.payload.click_id click_id)
key_of_click-beq tenant_id app_id click_id c = ground arith

-- Over any ordered attempts the provider with the indexes is the provider that filters: each of
-- its four questions has the same answer, in the same order.
pub indexed-eq-fixture :
    (ordered : List CandidateAttempt) → indexed_provider ordered ≡ fixture_provider ordered
indexed-eq-fixture ordered = λ i. record {
  all_candidates = ordered;
  by_record_id = fun_ext (records-index no_index ordered) i;
  by_logical_scope = λ a. scopes-index no_index ordered (scope_key a) i;
  click_candidates = λ tenant_id app_id click_id.
      (clicks-index no_index ordered (click_key tenant_id app_id click_id)
          ∙ filter_congr _ _ ordered (key_of_click-beq tenant_id app_id click_id))
        i;
}
