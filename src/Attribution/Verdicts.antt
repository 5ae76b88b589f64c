-- ===== src/Attribution/Verdicts.antt =====
-- The verdicts of `makeAttribution` in packages/attribution-core/src/evaluator.ts that need no
-- matching of clicks: those of an importing provider, of Meta and of Apple, and of a referrer that
-- names no click. A verdict is what `result` is called with; `clicked` is the click that the
-- evidence names beside the install.
use open_mmp.Common.{
  Bool, true, false, not, ◌&&◌, List, [], ◌∷◌, Option, none, some, String, str_eq, opt_eq, truthy,
  or_else, if◌then◌else◌, Outcome, ok, throw,
}
use open_mmp.Attribution.Types.{
  ReferrerStatus, MetaStatus, AdServicesStatus, ProviderStrategy, ImportContext, Model, Payload,
  CandidateAttempt,
}
use open_mmp.Attribution.Errors.{Error, meta_context_missing}
use open_mmp.Attribution.Candidates.{is_click}
use open_mmp.Attribution.Results.{
  Status, organic, non_organic, unattributed, Method, AttributionReason,
}

pub record Verdict : Type 0 where
  pub status : Status
  pub method : Method
  pub model : Model
  pub reason_code : AttributionReason
  pub clicked : Option String

abbrev pub verdict : Status → Method → Model → AttributionReason → Verdict
verdict status method model reason = record {
  status = status;
  method = method;
  model = model;
  reason_code = reason;
  clicked = none;
}

abbrev pub with_click : Option String → Verdict → Verdict
with_click clicked v = record v { clicked = clicked }

-- An unattributed install with neither method nor model.
abbrev pub unmatched : AttributionReason → Verdict
unmatched reason = verdict unattributed Method.no_method Model.none reason

-- The evidence of a single click that the provider's reference names.
abbrev pub sole_record : List CandidateAttempt → Option String
sole_record (c ∷ []) = some c.event.record_id
sole_record _ = none

abbrev pub is_modeled : ProviderStrategy → Bool
is_modeled ProviderStrategy.modeled = true
is_modeled _ = false

abbrev pub is_organic : ProviderStrategy → Bool
is_organic ProviderStrategy.organic = true
is_organic _ = false

abbrev pub by_provider : Verdict → AttributionReason → Verdict
by_provider v reason = record v { reason_code = reason }

-- What the provider of an imported install reported.
unfoldable pub provider_verdict : ImportContext → Option String → Verdict
provider_verdict i clicked =
    let reported = verdict non_organic Method.imported Model.provider_reported in
    if i.provider_attributed
    then (if is_modeled i.provider_attribution_strategy
        then with_click clicked (reported AttributionReason.provider_modeled_conversion)
        else if not (truthy i.provider_confirmed_at)
        then with_click clicked (reported AttributionReason.provider_time_authority_unavailable)
        else with_click clicked (reported AttributionReason.provider_attributed))
    else (if is_organic i.provider_attribution_strategy
        then verdict organic Method.imported Model.provider_reported
            AttributionReason.provider_organic
        else verdict unattributed Method.imported Model.provider_reported
            AttributionReason.provider_unattributed)

-- The clicks that the provider's reference names: the redirector's, in the install's scope.
abbrev pub is_referenced : CandidateAttempt → Option String → CandidateAttempt → Bool
is_referenced a reference c =
    str_eq c.server.tenant_id a.server.tenant_id
    && str_eq c.server.app_id a.server.app_id
    && is_click c
    && str_eq c.event.producer "redirector"
    && opt_eq c.event.payload.remote_click_ref reference

abbrev pub platform : Status → Model → AttributionReason → Option Verdict
platform status model reason = some (verdict status Method.apple_adservices model reason)

-- `adservices_context?.status`.
abbrev pub adservices_verdict : Option AdServicesStatus → Option Verdict
adservices_verdict none = none
adservices_verdict (some AdServicesStatus.attributed) =
    platform non_organic Model.last_click AttributionReason.adservices_attributed
adservices_verdict (some AdServicesStatus.token_expired) =
    platform unattributed Model.last_click AttributionReason.adservices_token_expired
adservices_verdict (some AdServicesStatus.not_attributed) =
    platform unattributed Model.last_click AttributionReason.adservices_not_attributed
adservices_verdict (some AdServicesStatus.lookup_unavailable) =
    platform unattributed Model.last_click AttributionReason.adservices_lookup_unavailable

-- The referrer statuses that settle an install without a click.
abbrev pub referrer_verdict : Bool → Option ReferrerStatus → Option Verdict
referrer_verdict marker (some ReferrerStatus.none) =
    some (verdict organic Method.no_method Model.none AttributionReason.no_referrer)
referrer_verdict marker (some ReferrerStatus.third_party) = some (
    if marker
    then verdict organic Method.no_method Model.none AttributionReason.no_first_party_referrer
    else unmatched AttributionReason.foreign_referrer_unresolved)
referrer_verdict marker (some ReferrerStatus.unsupported) =
    some (unmatched AttributionReason.install_referrer_unsupported)
referrer_verdict marker (some ReferrerStatus.unavailable) =
    some (unmatched AttributionReason.install_referrer_unavailable)
referrer_verdict marker (some ReferrerStatus.not_applicable) =
    some (unmatched AttributionReason.platform_referrer_not_available)
referrer_verdict marker _ = none

abbrev pub first_verdict : Option Verdict → Option Verdict → Option Verdict
first_verdict (some v) w = some v
first_verdict none w = w

-- A decrypted Meta referrer without its context is a TypeError.
abbrev pub meta_verdict : Option Model → Option MetaStatus → Option (Outcome Error Verdict)
meta_verdict none (some MetaStatus.decrypted) = some (throw meta_context_missing)
meta_verdict (some model) (some MetaStatus.decrypted) = some (
    ok (
      verdict non_organic Method.meta_install_referrer model
        AttributionReason.meta_referrer_decrypted))
meta_verdict model (some MetaStatus.decrypt_failed) = some (
    ok (
      verdict unattributed Method.meta_install_referrer (or_else model Model.last_click)
        AttributionReason.meta_referrer_decrypt_failed))
meta_verdict model (some MetaStatus.auth_failed) = some (
    ok (
      verdict unattributed Method.meta_install_referrer (or_else model Model.last_click)
        AttributionReason.meta_referrer_decrypt_failed))
meta_verdict model _ = none

-- What settles an install that no provider imported, before any click is looked at.
abbrev pub evidence_verdict : Payload → Option Verdict
evidence_verdict p =
    first_verdict (adservices_verdict p.adservices_status)
      (referrer_verdict p.play_organic_marker p.referrer_status)
