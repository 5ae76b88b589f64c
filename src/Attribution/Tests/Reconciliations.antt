-- ===== src/Attribution/Tests/Reconciliations.antt =====
-- A reconciliation of an external snapshot with two candidates, one of another app.
use mathlib.Core.List.{Memᴰ}
use open_mmp.Common.{◌≡◌, ◌↔◌, refl, true, false, String, [], ◌∷◌, none}
use open_mmp.Common.Ordering.{lexicographic}
use open_mmp.Common.Sorting.{insert_sorted, sort}
use open_mmp.Attribution.Order.{units}
use open_mmp.Attribution.Reconcile.Keys.{
  Normalization, WindowStatus, Freshness, matched, MatchingKey, Candidate, ReconciliationInput,
  key_text, compare_texts,
}
use open_mmp.Attribution.Reconcile.Reasons.{matched_candidates, reconcile}
use open_mmp.Attribution.Reconcile.Laws.{
  Matches, reconcile-candidates_iff, Agrees, reconcile-matched_iff,
}

abbrev key : String → MatchingKey
key value = record {
  key_type = "provider_click_id";
  value = value;
  normalization = Normalization.lowercase_ascii;
  one_to_one = true;
  value_encoding = none;
}

abbrev candidate : String → String → Candidate
candidate candidate_id app_id = record {
  candidate_id = candidate_id;
  tenant_id = "acme";
  app_id = app_id;
  matching_keys = key "Click" ∷ [];
  window_status = WindowStatus.in_window;
  freshness = Freshness.current;
  excluded = false;
  exclusion_reason = none;
}

abbrev item : ReconciliationInput
item = record {
  reconciliation_id = "q1";
  tenant_id = "acme";
  app_id = "game";
  input_snapshot_id = "s1";
  external_snapshot_id = "s2";
  matching_keys = key "cLICK" ∷ [];
  provider_modeled_without_candidate = false;
  redacted = false;
  candidates = candidate "c1" "game" ∷ candidate "c2" "other" ∷ [];
  freshness = Freshness.current;
}

reconcile-candidates_iff_example :
    Memᴰ "c1" (reconcile item).candidates
    ↔ ((c : Candidate) × Memᴰ c item.candidates × ("c1" ≡ c.candidate_id) × Matches item c)
reconcile-candidates_iff_example = reconcile-candidates_iff item "c1"

reconcile-matched_iff_example :
    ((reconcile item).difference_reason_code ≡ matched)
    ↔ ((item.redacted ≡ false) × Agrees item (matched_candidates item))
reconcile-matched_iff_example = reconcile-matched_iff item

reconcile_tests :
    ((reconcile item).candidates ≡ "c1" ∷ []) × ((reconcile item).difference_reason_code ≡ matched)
unfolding reconcile sort insert_sorted key_text compare_texts units lexicographic
reconcile_tests = (refl, refl)
