-- ===== src/Attribution/Reconcile/Reasons.antt =====
-- The body of `reconciliationResults` in packages/attribution-core/src/evaluator.ts: which candidates
-- an external snapshot matches, and the reason of a difference.
use open_mmp.Common.{
  Bool, true, false, not, ◌&&◌, ◌||◌, List, [], ◌∷◌, ◌++◌, map, Option, none, some, String, str_eq,
  filter, any, first, if◌then◌else◌, or_else, is_some, list_eq, nat_eq,
}
use open_mmp.Common.Sorting.{sort}
use open_mmp.Instant.{codes}
use open_mmp.Attribution.Reconcile.Keys.{
  Text, WindowStatus, in_window, out_of_window, not_applicable, Freshness, stale, DifferenceReason,
  matched, redaction_caused_recalculation, provider_modeled_conversion, join_key_missing,
  candidate_missing, external_row_unmatched, join_key_ambiguous, candidate_excluded,
  window_mismatch, freshness_mismatch, MatchingKey, Candidate, ReconciliationInput, Reconciliation,
  is_empty, key_text, compare_texts, compare_strings, text_beq,
}

abbrev pub is_provider_key : MatchingKey → Bool
is_provider_key k = str_eq k.key_type "provider_click_id" || str_eq k.key_type "provider_install_id"

abbrev pub is_out_of_window : WindowStatus → Bool
is_out_of_window out_of_window = true
is_out_of_window _ = false

abbrev pub is_stale : Freshness → Bool
is_stale stale = true
is_stale _ = false

module _ (item : ReconciliationInput) where
  -- A key of the candidate is an external key.
  abbrev pub shares_key : Candidate → Bool
  shares_key c =
      any (λ k. any (λ e. text_beq (key_text e) (key_text k)) item.matching_keys) c.matching_keys

  abbrev pub is_match : Candidate → Bool
  is_match c = str_eq c.tenant_id item.tenant_id && str_eq c.app_id item.app_id && shares_key c

  abbrev pub matched_candidates : List Candidate
  matched_candidates = filter is_match item.candidates

  -- The reasons that look at the matched candidates.
  abbrev pub reason_of : List Candidate → DifferenceReason
  reason_of [] =
      if any is_provider_key item.matching_keys then candidate_missing else external_row_unmatched
  reason_of (c ∷ cs) =
      if not (is_empty cs) && any (λ k. k.one_to_one) item.matching_keys
      then join_key_ambiguous
      else if c.excluded
      then candidate_excluded
      else if is_out_of_window c.window_status
      then window_mismatch
      else if is_stale c.freshness
      then freshness_mismatch
      else matched

  abbrev pub difference_reason : List Candidate → DifferenceReason
  difference_reason found =
      if item.redacted
      then redaction_caused_recalculation
      else if item.provider_modeled_without_candidate && is_empty found
      then provider_modeled_conversion
      else if is_empty item.matching_keys
      then join_key_missing
      else reason_of found

abbrev pub contract_version : String
contract_version = "0.4.0"

abbrev pub reason_version : DifferenceReason → String
reason_version provider_modeled_conversion = "0.4.0"
reason_version _ = contract_version

abbrev pub window_text : WindowStatus → String
window_text in_window = "in_window"
window_text out_of_window = "out_of_window"
window_text not_applicable = "not_applicable"

-- Texts with commas between them.
abbrev pub comma_joined : List Text → Text
comma_joined [] = []
comma_joined (t ∷ []) = t
comma_joined (t ∷ u ∷ rest) = t ++ 44 ∷ comma_joined (u ∷ rest)

-- `sort` puts `undefined` behind what it compares.
abbrev pub given : List (Option String) → List String
given [] = []
given (none ∷ os) = given os
given (some s ∷ os) = s ∷ given os

abbrev pub sorted_reasons : List (Option String) → List (Option String)
sorted_reasons os = map some (sort compare_strings (given os)) ++ filter (λ o. not (is_some o)) os

unfoldable pub reconcile : ReconciliationInput → Reconciliation
unfolding sort compare_texts key_text
reconcile item =
    let found = matched_candidates item in
    let reason = difference_reason item found in
    let keys = sort (λ a b. compare_texts (key_text a) (key_text b)) item.matching_keys in
    record {
      reconciliation_id = item.reconciliation_id;
      tenant_id = item.tenant_id;
      app_id = item.app_id;
      input_snapshot_id = item.input_snapshot_id;
      external_snapshot_id = item.external_snapshot_id;
      difference_reason_code = reason;
      difference_reason_version = reason_version reason;
      matching_keys = keys;
      candidates = sort compare_strings (map (λ c. c.candidate_id) found);
      exclusions = sorted_reasons (map (λ c. c.exclusion_reason) (filter (λ c. c.excluded) found));
      windows =
          sort compare_texts
            (map (λ c. codes c.candidate_id ++ 58 ∷ codes (window_text c.window_status)) found);
      joins =
          sort compare_texts
            (map (λ c. comma_joined (map key_text keys) ++ 61 ∷ 62 ∷ codes c.candidate_id) found);
      freshness = or_else (first (map (λ c. c.freshness) found)) item.freshness;
    }
