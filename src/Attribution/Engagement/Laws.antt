-- ===== src/Attribution/Engagement/Laws.antt =====
-- When a postback or an opened deep link counts as attributed.
use open_mmp.Common.{◌≡◌, ◌≢◌, ◌↔◌, ◌⊎◌, true, none, some, opt_eq_iff, arith}
use open_mmp.Attribution.Types.{LinkStatus, DeepLinkResolution, CandidateAttempt, Payload}
use open_mmp.Attribution.Results.{non_organic, AttributionReason, LifecycleIndex}
use open_mmp.Attribution.Engagement.{
  postback_verdict, make_aggregate_postback_attribution, make_deep_link_attribution, resolution_of,
}

-- A postback that may be counted: verified, of the winner, and with what crowd anonymity leaves of
-- its source and of a conversion value.
pub record IsCountable (p : Payload) : Type 0 where
  pub verified : p.signature_verified ≡ true
  pub won : p.did_win ≡ true
  pub source : p.source_identifier ≢ none
  pub value : (p.conversion_value ≢ none) ⊎ (p.coarse_conversion_value ≢ none)

-- A postback of Apple is attributed exactly if its signature is verified, it is the winner's, it
-- names its source and it has a conversion value, fine or coarse; and then, and only then, its
-- reason says that it is verified.
pub aggregate_postback-non_organic_iff :
    (a : CandidateAttempt) (lifecycle : LifecycleIndex)
    → (((make_aggregate_postback_attribution a lifecycle).status ≡ non_organic)
        ↔ IsCountable a.event.payload)
      × (((make_aggregate_postback_attribution a lifecycle).reason_code
            ≡ AttributionReason.skan_postback_verified)
          ↔ IsCountable a.event.payload)
unfolding make_aggregate_postback_attribution postback_verdict
aggregate_postback-non_organic_iff a lifecycle = ground arith

-- An opened deep link is attributed exactly if the server resolved it to an active link and it is
-- not the deferred link of the click that the install itself was attributed to.
pub deep_link-non_organic_iff :
    (a : CandidateAttempt) (lifecycle : LifecycleIndex)
    → ((make_deep_link_attribution a lifecycle).status ≡ non_organic) ↔ (
        ((r : DeepLinkResolution) × (a.server.deep_link_resolution ≡ some r)
          × (r.status ≡ LinkStatus.active))
        × (¬ (
            (a.event.payload.android_deferred_referrer ≡ true)
            × ((resolution_of a.server.deep_link_resolution).install_attribution_click_id
                ≡ a.event.payload.click_id))))
unfolding make_deep_link_attribution
deep_link-non_organic_iff a lifecycle = ground (
  arith,
  opt_eq_iff (resolution_of a.server.deep_link_resolution).install_attribution_click_id
      a.event.payload.click_id,
)
