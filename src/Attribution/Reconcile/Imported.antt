-- ===== src/Attribution/Reconcile/Imported.antt =====
-- `importedReconciliationInputs`, and `reconciliationResults` over the inputs together.
use Prim.Native.String
use open_mmp.Common.{
  Bool, true, false, not, ◌&&◌, List, [], ◌∷◌, ◌++◌, map, Option, none, some, String, str_eq,
  filter, any, if◌then◌else◌, Outcome, ok, throw, list_eq, nat_eq,
}
use open_mmp.Attribution.Types.{ImportContext, CandidateAttempt}
use open_mmp.Attribution.Candidates.{CompositeKey, key_eq, composite_key}
use open_mmp.Attribution.Verdicts.{is_modeled}
use open_mmp.Attribution.Install.{is_imported}
use open_mmp.Attribution.Anchors.{is_install}
use open_mmp.Attribution.Order.{sort_by_key}
use open_mmp.Attribution.Reconcile.Keys.{
  identity, not_applicable, current, MatchingKey, Candidate, ReconciliationInput, Reconciliation,
  is_empty,
}
use open_mmp.Attribution.Reconcile.Reasons.{reconcile}

-- `sha256` of a provider, the type of a key and its value.
abbrev pub KeyDigest : Type 0
KeyDigest = String → String → String → String

abbrev pub provider_key : KeyDigest → ImportContext → String → String → MatchingKey
provider_key digest context key_type value = record {
  key_type = key_type;
  value = digest context.provider key_type value;
  normalization = identity;
  one_to_one = true;
  value_encoding = some "sha256";
}

abbrev pub key_if : KeyDigest → ImportContext → String → Option String → List MatchingKey
key_if digest context key_type none = []
key_if digest context key_type (some ref) =
    if str_eq ref "" then [] else provider_key digest context key_type ref ∷ []

abbrev pub imported_keys : KeyDigest → Option ImportContext → List MatchingKey
imported_keys digest none = []
imported_keys digest (some context) =
    key_if digest context "provider_install_id" context.provider_install_ref
    ++ key_if digest context "provider_click_id" context.provider_click_ref

abbrev pub is_modeled_context : Option ImportContext → Bool
is_modeled_context none = false
is_modeled_context (some context) = is_modeled context.provider_attribution_strategy

abbrev pub own_candidate : CandidateAttempt → List MatchingKey → List Candidate
own_candidate a [] = []
own_candidate a (k ∷ ks) =
    record {
      candidate_id = a.event.record_id;
      tenant_id = a.server.tenant_id;
      app_id = a.server.app_id;
      matching_keys = k ∷ ks;
      window_status = not_applicable;
      freshness = current;
      excluded = false;
      exclusion_reason = none;
    }
    ∷ []

abbrev pub imported_input : KeyDigest → CandidateAttempt → ReconciliationInput
imported_input digest a =
    let keys = imported_keys digest a.event.payload.import_context in
    record {
      reconciliation_id = String.◌++◌ "reconciliation:import:" a.event.record_id;
      tenant_id = a.server.tenant_id;
      app_id = a.server.app_id;
      input_snapshot_id = String.◌++◌ "snapshot:internal:" a.event.record_id;
      external_snapshot_id = String.◌++◌ "snapshot:provider:" a.event.record_id;
      matching_keys = keys;
      provider_modeled_without_candidate =
          is_modeled_context a.event.payload.import_context && is_empty keys;
      redacted = false;
      candidates = own_candidate a keys;
      freshness = current;
    }

abbrev pub imported_reconciliation_inputs :
    KeyDigest → List CandidateAttempt → List ReconciliationInput
imported_reconciliation_inputs digest accepted =
    map (imported_input digest) (filter (λ a. is_install a && is_imported a) accepted)

abbrev pub identity_key : ReconciliationInput → CompositeKey
identity_key item =
    composite_key (some item.tenant_id ∷ some item.app_id ∷ some item.reconciliation_id ∷ [])

-- As many elements in the `Set` as in the list.
unfoldable pub are_distinct : List CompositeKey → Bool
are_distinct [] = true
are_distinct (k ∷ ks) = not (any (λ j. key_eq.beq j k) ks) && are_distinct ks

pub data ReconciliationError : Type 0 where
  duplicate_reconciliation_identity : ReconciliationError

unfoldable pub reconciliation_results :
    (Reconciliation → String)
    → KeyDigest
    → List ReconciliationInput
    → List CandidateAttempt
    → Outcome ReconciliationError (List Reconciliation)
unfolding are_distinct reconcile sort_by_key
reconciliation_results result_digest key_digest inputs accepted =
    let items = inputs ++ imported_reconciliation_inputs key_digest accepted in
    if are_distinct (map identity_key items)
    then ok (
        sort_by_key result_digest (map reconcile items)
          (λ r. r.reconciliation_id ∷ r.tenant_id ∷ r.app_id ∷ []))
    else throw duplicate_reconciliation_identity
