-- ===== src/Attribution/Candidates.antt =====
-- The candidate providers of packages/attribution-core/src/evaluator.ts: the one that filters the
-- attempts at each question, and the one that looks them up in three indexes built beforehand.
-- `compositeKey` is `JSON.stringify` of a list of texts: the key is that list, with `none` for
-- `undefined` (which is printed as null, as no text is).
pub mod Indexed
use open_mmp.Common.{
  Bool, true, false, ◌&&◌, List, [], ◌∷◌, ◌++◌, Option, none, some, String, str_eq, opt_eq, filter,
  lookup, insert, or_else, if◌then◌else◌, Eq, string_eq, optional_eq, list_eq,
}
use open_mmp.Attribution.Types.{CandidateAttempt}

abbrev pub CompositeKey : Type 0
CompositeKey = List (Option String)

abbrev pub composite_key : List (Option String) → CompositeKey
composite_key parts = parts

abbrev pub key_eq : Eq CompositeKey
key_eq = list_eq ⦃e = optional_eq⦄

abbrev pub scope_key : CandidateAttempt → CompositeKey
scope_key a = composite_key (
    some a.server.tenant_id
    ∷ some a.server.app_id
    ∷ some a.event.producer
    ∷ some a.event.event_id
    ∷ [])

abbrev pub click_key : String → String → Option String → CompositeKey
click_key tenant_id app_id click_id = composite_key (some tenant_id ∷ some app_id ∷ click_id ∷ [])

abbrev pub is_click : CandidateAttempt → Bool
is_click a = str_eq a.event.event_name "click"

pub record CandidateProvider : Type 0 where
  pub all_candidates : List CandidateAttempt
  pub by_record_id : String → List CandidateAttempt
  pub by_logical_scope : CandidateAttempt → List CandidateAttempt
  pub click_candidates : String → String → Option String → List CandidateAttempt

-- `FixtureArrayCandidateProvider`.
abbrev pub fixture_provider : List CandidateAttempt → CandidateProvider
fixture_provider ordered = record {
  all_candidates = ordered;
  by_record_id = λ record_id. filter (λ c. str_eq c.event.record_id record_id) ordered;
  by_logical_scope = λ a. filter (λ c. key_eq.beq (scope_key c) (scope_key a)) ordered;
  click_candidates = λ tenant_id app_id click_id.
      filter
        (λ c.
          str_eq c.server.tenant_id tenant_id
          && str_eq c.server.app_id app_id
          && is_click c
          && opt_eq c.event.payload.click_id click_id)
        ordered;
}

-- The three maps of `IndexedCandidateProvider`.
pub record Index : Type 0 where
  pub records : List (String × List CandidateAttempt)
  pub logical_scopes : List (CompositeKey × List CandidateAttempt)
  pub clicks : List (CompositeKey × List CandidateAttempt)

module _ {ℓ} {K : Type ℓ} ⦃e : Eq K⦄ where
  -- `index.get(key) ?? []`.
  abbrev pub values_of : K → List (K × List CandidateAttempt) → List CandidateAttempt
  values_of key index = or_else (lookup key index) []

  -- `add`.
  abbrev pub add :
      List (K × List CandidateAttempt) → K → CandidateAttempt → List (K × List CandidateAttempt)
  add index key attempt = insert key (values_of key index ++ attempt ∷ []) index

-- One round of the constructor's loop.
unfoldable pub index_attempt : Index → CandidateAttempt → Index
index_attempt i a = record {
  records = add i.records a.event.record_id a;
  logical_scopes = add ⦃e = key_eq⦄ i.logical_scopes (scope_key a) a;
  clicks =
      if is_click a
      then add ⦃e = key_eq⦄ i.clicks
          (click_key a.server.tenant_id a.server.app_id a.event.payload.click_id) a
      else i.clicks;
}

unfoldable pub index_attempts : Index → List CandidateAttempt → Index
unfolding index_attempt
index_attempts i [] = i
index_attempts i (a ∷ ordered) = index_attempts (index_attempt i a) ordered

abbrev pub no_index : Index
no_index = record { records = []; logical_scopes = []; clicks = [] }

-- `IndexedCandidateProvider`.
abbrev pub indexed_provider : List CandidateAttempt → CandidateProvider
indexed_provider ordered =
    let i = index_attempts no_index ordered in
    record {
      all_candidates = ordered;
      by_record_id = λ record_id. values_of record_id i.records;
      by_logical_scope = λ a. values_of ⦃e = key_eq⦄ (scope_key a) i.logical_scopes;
      click_candidates = λ tenant_id app_id click_id.
          values_of ⦃e = key_eq⦄ (click_key tenant_id app_id click_id) i.clicks;
    }
