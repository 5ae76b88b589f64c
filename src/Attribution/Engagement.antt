-- ===== src/Attribution/Engagement.antt =====
-- `makeAggregatePostbackAttribution` and `makeDeepLinkAttribution` of
-- packages/attribution-core/src/evaluator.ts: the attributions that need no click.
pub mod Laws
use Prim.Native.String
use open_mmp.Common.{
  Bool, true, false, ◌&&◌, not, List, [], ◌∷◌, Option, none, some, String, str_eq, opt_eq,
  if◌then◌else◌,
}
use open_mmp.Attribution.Types.{LinkStatus, DeepLinkResolution, Model, Payload, CandidateAttempt}
use open_mmp.Attribution.Results.{
  Status, non_organic, unattributed, Method, Finality, SubjectScope, AttributionReason,
  AttributionResult, LifecycleIndex, evidence,
}

abbrev pub is_skan : CandidateAttempt → Bool
is_skan a = str_eq a.event.event_name "skan_postback"

abbrev pub postback_method : CandidateAttempt → Method
postback_method a = if is_skan a then Method.skadnetwork else Method.adattributionkit

-- The text of the method in the reference of its subject.
abbrev pub method_name : CandidateAttempt → String
method_name a = if is_skan a then "skadnetwork" else "adattributionkit"

abbrev pub is_absent {ℓ} : {A : Type ℓ} → Option A → Bool
is_absent none = true
is_absent (some a) = false

unfoldable pub postback_verdict : Payload → Status × AttributionReason
postback_verdict p =
    if not p.signature_verified
    then (unattributed, AttributionReason.skan_signature_invalid)
    else if not p.did_win
    then (unattributed, AttributionReason.postback_not_winner)
    else if is_absent p.source_identifier
    then (unattributed, AttributionReason.crowd_anonymity_suppressed)
    else if is_absent p.conversion_value && is_absent p.coarse_conversion_value
    then (unattributed, AttributionReason.conversion_value_null)
    else (non_organic, AttributionReason.skan_postback_verified)

unfoldable pub make_aggregate_postback_attribution :
    CandidateAttempt → LifecycleIndex → AttributionResult
make_aggregate_postback_attribution a lifecycle =
    let (status, reason) = postback_verdict a.event.payload in
    record {
      attribution_id = String.◌++◌ "attr:" a.event.record_id;
      tenant_id = a.server.tenant_id;
      app_id = a.server.app_id;
      subject_scope = SubjectScope.aggregate;
      subject_ref = some (
          String.◌++◌ "aggregate:"
            (String.◌++◌ (method_name a) (String.◌++◌ ":" a.event.record_id)));
      status = status;
      method = postback_method a;
      model = Model.aggregate;
      reason_code = reason;
      evidence_refs = evidence a lifecycle a.event.record_id ∷ [];
      effective_at = a.event.occurred_at;
      decided_at = a.server.received_at;
      finality = Finality.final;
      supersedes_attribution_id = none;
    }

-- `server.deep_link_resolution ?? { status: "unknown" }`.
abbrev pub resolution_of : Option DeepLinkResolution → DeepLinkResolution
resolution_of none = record {
  status = LinkStatus.unknown;
  install_attribution_click_id = none;
  campaign_id = none;
}
resolution_of (some r) = r

abbrev pub is_active : LinkStatus → Bool
is_active LinkStatus.active = true
is_active _ = false

abbrev pub reused_install_click : CandidateAttempt → Bool
reused_install_click a =
    a.event.payload.android_deferred_referrer
    && opt_eq (resolution_of a.server.deep_link_resolution).install_attribution_click_id
        a.event.payload.click_id

abbrev pub link_reason : LinkStatus → AttributionReason
link_reason LinkStatus.active = AttributionReason.deep_link_open_attributed
link_reason LinkStatus.inactive = AttributionReason.deep_link_link_inactive
link_reason LinkStatus.unknown = AttributionReason.deep_link_unknown_link

unfoldable pub make_deep_link_attribution : CandidateAttempt → LifecycleIndex → AttributionResult
make_deep_link_attribution a lifecycle =
    let link = (resolution_of a.server.deep_link_resolution).status in
    let reused = reused_install_click a in
    record {
      attribution_id = String.◌++◌ "attr:engagement:" a.event.record_id;
      tenant_id = a.server.tenant_id;
      app_id = a.server.app_id;
      subject_scope = SubjectScope.engagement_level;
      subject_ref = some (String.◌++◌ "engagement:" a.event.record_id);
      status = if is_active link && not reused then non_organic else unattributed;
      method = Method.deep_link;
      model = Model.last_click;
      reason_code =
          if reused then AttributionReason.deep_link_install_click_reused else link_reason link;
      evidence_refs = evidence a lifecycle a.event.record_id ∷ [];
      effective_at = a.event.occurred_at;
      decided_at = a.server.received_at;
      finality = Finality.final;
      supersedes_attribution_id = none;
    }
