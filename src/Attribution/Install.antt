-- ===== src/Attribution/Install.antt =====
-- `makeAttribution` of packages/attribution-core/src/evaluator.ts: the attribution of an install,
-- with the matching of its click.
pub mod Kept
pub mod Timely
pub mod Laws
pub mod Attributed
use Prim.Native.String
use text.Mathlib.Text.{starts_with}
use open_mmp.Common.{
  ℕ, ◌+◌, ◌*◌, Bool, true, false, not, ◌&&◌, ◌||◌, List, [], ◌∷◌, Option, none, some, String,
  str_eq, opt_eq, truthy, ltb, leb, any, or_else, if◌then◌else◌, Outcome, ok, throw, ◌>>=◌,
}
use open_mmp.Instant.{day_ms}
use open_mmp.Attribution.Types.{
  ReferrerStatus, TimeStatus, MetaStatus, AdServicesStatus, ProviderStrategy, ImportContext, Model,
  Payload, CandidateAttempt, Digests,
}
use open_mmp.Attribution.Errors.{Error, time, meta_context_missing}
use open_mmp.Attribution.Candidates.{CandidateProvider, is_click}
use open_mmp.Attribution.Results.{
  Lifecycle, EvidenceRef, Status, organic, non_organic, unattributed, Method, Finality,
  SubjectScope, AttributionReason, AttributionResult, Decisions, LifecycleIndex, evidence,
  filter_counted,
}
use open_mmp.Attribution.Verdicts.{
  Verdict, verdict, with_click, unmatched, sole_record, is_modeled, is_organic, by_provider,
  provider_verdict, is_referenced, platform, adservices_verdict, referrer_verdict, first_verdict,
  meta_verdict, evidence_verdict,
}

abbrev pub is_invalid : TimeStatus → Bool
is_invalid TimeStatus.invalid = true
is_invalid _ = false

abbrev pub is_available : TimeStatus → Bool
is_available TimeStatus.available = true
is_available _ = false

-- `install_begin_at_server_status ?? (install_begin_at_server ? "available" : "missing")`.
abbrev pub install_status : Payload → TimeStatus
install_status p =
    or_else p.install_begin_at_server_status
      (if truthy p.install_begin_at_server then TimeStatus.available else TimeStatus.missing)

abbrev pub click_status : Payload → TimeStatus
click_status p = or_else p.redirector_time_status TimeStatus.available

-- The seven days of the attribution window, in milliseconds.
abbrev pub window_ms : ℕ
window_ms = 7 * day_ms

abbrev pub in_window : ℕ → ℕ → Bool
in_window clicked begun = not (ltb begun clicked || leb (clicked + window_ms) begun)

-- The comparison of the two times of a single click.
unfoldable pub timed_verdict : CandidateAttempt → CandidateAttempt → Outcome Error Verdict
timed_verdict a click = do
  begun ← time a.event.payload.install_begin_at_server "install_begin_at_server"
  clicked ← time click.event.payload.redirector_click_at "redirector_click_at"
  ok (
      if in_window clicked begun
      then with_click (some click.event.record_id) (
          verdict non_organic Method.install_referrer Model.last_click
            AttributionReason.valid_install_referrer)
      else unmatched AttributionReason.window_expired)

abbrev pub has_times : CandidateAttempt → CandidateAttempt → Bool
has_times a click =
    is_available (click_status click.event.payload)
    && is_available (install_status a.event.payload)
    && truthy click.event.payload.redirector_click_at
    && truthy a.event.payload.install_begin_at_server

unfoldable pub single_click_verdict : CandidateAttempt → CandidateAttempt → Outcome Error Verdict
single_click_verdict a click =
    if click.event.payload.bot_prefetch
    then ok (with_click (some click.event.record_id) (unmatched AttributionReason.bot_prefetch))
    else if is_invalid (click_status click.event.payload)
        || is_invalid (install_status a.event.payload)
    then ok (unmatched AttributionReason.authoritative_time_invalid)
    else if not (has_times a click)
    then ok (unmatched AttributionReason.authoritative_time_missing)
    else timed_verdict a click

abbrev pub clicks_verdict : CandidateAttempt → List CandidateAttempt → Outcome Error Verdict
clicks_verdict a [] = ok (unmatched AttributionReason.unknown_click_id)
clicks_verdict a (click ∷ []) = single_click_verdict a click
clicks_verdict a (_ ∷ _ ∷ _) = ok (unmatched AttributionReason.ambiguous_click_id)

abbrev pub is_imported : CandidateAttempt → Bool
is_imported a = starts_with a.event.producer "import:"

module _ (dg : Digests) (candidates : CandidateProvider) (decisions : Decisions) where
  unfoldable pub imported_verdict : CandidateAttempt → Option ImportContext → Outcome Error Verdict
  imported_verdict a none = ok (
      verdict unattributed Method.imported Model.provider_reported
        AttributionReason.provider_unattributed)
  imported_verdict a (some i) =
      if truthy i.provider_click_ref
      then (do
        referenced ←
            filter_counted dg decisions (is_referenced a i.provider_click_ref)
              candidates.all_candidates
        ok (provider_verdict i (sole_record referenced)))
      else ok (provider_verdict i none)

  -- The clicks with the install's click id that count.
  abbrev pub counted_clicks : CandidateAttempt → Outcome Error (List CandidateAttempt)
  counted_clicks a =
      filter_counted dg decisions (λ c. true)
        (candidates.click_candidates a.server.tenant_id a.server.app_id a.event.payload.click_id)

  abbrev pub settled_or_clicks : CandidateAttempt → Option Verdict → Outcome Error Verdict
  settled_or_clicks a (some v) = ok v
  settled_or_clicks a none = counted_clicks a >>= clicks_verdict a

  abbrev pub meta_or_later :
      CandidateAttempt → Option (Outcome Error Verdict) → Outcome Error Verdict
  meta_or_later a (some v) = v
  meta_or_later a none = settled_or_clicks a (evidence_verdict a.event.payload)

  unfoldable pub install_verdict : CandidateAttempt → Outcome Error Verdict
  install_verdict a =
      if is_imported a
      then imported_verdict a a.event.payload.import_context
      else meta_or_later a
          (meta_verdict a.event.payload.meta_attribution_model a.event.payload.meta_referrer_status)

abbrev pub is_lost : Lifecycle → Bool
is_lost Lifecycle.available = false
is_lost _ = true

-- `:recalculated`, and what it supersedes, where some of the evidence is not available any more.
abbrev pub recalculated : AttributionResult → AttributionResult
recalculated r =
    if any (λ e. is_lost e.lifecycle_status) r.evidence_refs
    then record r {
      attribution_id = String.◌++◌ r.attribution_id ":recalculated";
      finality = Finality.superseded;
      supersedes_attribution_id = some r.attribution_id;
    }
    else r

abbrev pub evidence_of : CandidateAttempt → LifecycleIndex → Option String → List EvidenceRef
evidence_of a lifecycle none = evidence a lifecycle a.event.record_id ∷ []
evidence_of a lifecycle (some click) =
    evidence a lifecycle click ∷ evidence a lifecycle a.event.record_id ∷ []

-- The base of `result`.
abbrev pub recorded : CandidateAttempt → LifecycleIndex → Verdict → AttributionResult
recorded a lifecycle v = record {
  attribution_id = String.◌++◌ "attr:" a.event.record_id;
  tenant_id = a.server.tenant_id;
  app_id = a.server.app_id;
  subject_scope = SubjectScope.installation_level;
  subject_ref = a.event.payload.installation_id;
  status = v.status;
  method = v.method;
  model = v.model;
  reason_code = v.reason_code;
  evidence_refs = evidence_of a lifecycle v.clicked;
  effective_at = a.event.occurred_at;
  decided_at = a.server.received_at;
  finality = Finality.final;
  supersedes_attribution_id = none;
}

-- `result`.
abbrev pub result : CandidateAttempt → LifecycleIndex → Verdict → AttributionResult
result a lifecycle v = recalculated (recorded a lifecycle v)

unfoldable pub make_attribution :
    Digests
    → CandidateAttempt
    → CandidateProvider
    → Decisions
    → LifecycleIndex
    → Outcome Error AttributionResult
make_attribution dg a candidates decisions lifecycle = do
  v ← install_verdict dg candidates decisions a
  ok (result a lifecycle v)
