-- ===== src/Redirector/Resolve.antt =====
-- `fallbackResponse`, `resolveRedirect` and `prefetchEvidence` of
-- packages/redirector-core/src/index.ts. The URLs of the platform are a parameter; the constant status,
-- body and headers of a response are left out, beside the location.
pub mod Laws
use open_mmp.Common.{
  ℕ, Bool, true, false, List, [], ◌∷◌, Option, none, some, String, length, ltb, truthy,
  if◌then◌else◌, or_else, Outcome, ok, throw, ◌>>=◌, ◌>>◌,
}
use open_mmp.Instant.{codes}
use open_mmp.Redirector.Referrer.{
  RedirectError, referrer_too_long, url_invalid, play_package_name_missing, Text, DeferredStatus,
  DeferredReferrer, build_deferred_referrer,
}

pub data DestinationKind : Type 0 where
  play_store custom_https : DestinationKind

pub data LinkStatus : Type 0 where
  active paused archived : LinkStatus

pub record TrackingLink : Type 0 where
  pub tracking_link_id : String
  pub tenant_id : String
  pub app_id : String
  pub destination_kind : DestinationKind
  pub destination_url : String
  pub play_package_name : Option String
  pub network : Option String
  pub site_id : Option String
  pub campaign_id : Option String
  pub ad_group_id : Option String
  pub creative_id : Option String
  pub deep_link_value : Option String
  pub status : LinkStatus

pub data SourceRateClass : Type 0 where
  normal elevated saturated : SourceRateClass

pub data ClientClass : Type 0 where
  mobile_app_eligible bot other : ClientClass

-- What a click and the evidence of a prefetch have in common.
pub record Touch : Type 0 where
  pub tracking_link_id : String
  pub tenant_id : String
  pub app_id : String
  pub redirector_click_at : String
  pub campaign_id : Option String
  pub ad_group_id : Option String
  pub creative_id : Option String
  pub network : Option String
  pub site_id : Option String
  pub remote_click_ref : Option String
  pub source_rate_class : Option SourceRateClass
  pub client_class : Option ClientClass
  pub bot_prefetch : Bool

pub record RedirectClick : Type 0 where
  pub click_id : String
  pub touch : Touch
  pub destination_url : Text
  pub referrer : Text
  pub deep_link_value : Option String
  pub deep_link_params : List (String × String)
  pub deferred_deep_link_status : DeferredStatus

pub record RedirectResolution : Type 0 where
  pub location : Text
  pub click : Option RedirectClick
  pub prefetch : Option Touch

pub record Request : Type 0 where
  pub fallback_destination : String
  pub now : String
  pub click_id : String  -- given, or drawn by `randomClickId`
  pub remote_click_ref : Option String
  pub source_rate_class : Option SourceRateClass
  pub client_class : Option ClientClass
  pub deep_link_params : List (String × String)  -- none for `undefined`, too
  pub referrer_maximum_encoded_characters : Option ℕ
  pub deep_link_value : Option String

-- `new URL`, `searchParams.set` and `toString`.
pub record Urls (U : Type 0) : Type 0 where
  pub parse : String → Option U
  pub set : U → String → Text → U
  pub print : U → Text

abbrev pub fallback_response : String → RedirectResolution
fallback_response destination = record {
  location = codes destination;
  click = none;
  prefetch = none;
}

-- A field that is given where it is not the empty text.
abbrev pub unless_empty : Option String → Option String
unless_empty o = if truthy o then o else none

abbrev pub is_bot : Option ClientClass → Bool
is_bot (some bot) = true
is_bot _ = false

abbrev pub touch_of : TrackingLink → Request → Option ClientClass → Bool → Touch
touch_of link request client_class bot_prefetch = record {
  tracking_link_id = link.tracking_link_id;
  tenant_id = link.tenant_id;
  app_id = link.app_id;
  redirector_click_at = request.now;
  campaign_id = unless_empty link.campaign_id;
  ad_group_id = unless_empty link.ad_group_id;
  creative_id = unless_empty link.creative_id;
  network = unless_empty link.network;
  site_id = unless_empty link.site_id;
  remote_click_ref = unless_empty request.remote_click_ref;
  source_rate_class = request.source_rate_class;
  client_class = client_class;
  bot_prefetch = bot_prefetch;
}

abbrev pub given_value : Option String → Option String → Option String
given_value (some value) of_link = some value
given_value none of_link = of_link

abbrev pub value_of : TrackingLink → Request → Option String
value_of link request = unless_empty (given_value request.deep_link_value link.deep_link_value)

abbrev pub maximum_of : Request → ℕ
maximum_of request = or_else request.referrer_maximum_encoded_characters 512

abbrev pub fits : ℕ → Text → Outcome RedirectError (Unit {0})
fits maximum referrer = if ltb maximum (length referrer) then throw referrer_too_long else ok tt

abbrev pub is_active : LinkStatus → Bool
is_active active = true
is_active _ = false

abbrev pub click_of : TrackingLink → Request → DeferredReferrer → Text → RedirectClick
click_of link request deferred destination = record {
  click_id = request.click_id;
  touch = touch_of link request request.client_class (is_bot request.client_class);
  destination_url = destination;
  referrer = deferred.referrer;
  deep_link_value = value_of link request;
  deep_link_params = request.deep_link_params;
  deferred_deep_link_status = deferred.status;
}

abbrev pub redirected : TrackingLink → Request → DeferredReferrer → Text → RedirectResolution
redirected link request deferred destination = record {
  location = destination;
  click = some (click_of link request deferred destination);
  prefetch = none;
}

module _ {U : Type 0} (urls : Urls U)
    (by_locale : List (String × String) → List (String × String)) where
  abbrev pub parsed : String → Outcome RedirectError U
  parsed url = elim (urls.parse url) [ none ↦ throw url_invalid | some u ↦ ok u ]

  abbrev pub with_package : U → Option String → Text → Outcome RedirectError U
  with_package u none referrer = throw play_package_name_missing
  with_package u (some name) referrer =
      if truthy (some name)
      then ok (urls.set (urls.set u "id" (codes name)) "referrer" referrer)
      else throw play_package_name_missing

  abbrev pub destination_of : TrackingLink → U → Text → Outcome RedirectError U
  destination_of link u referrer = elim link.destination_kind [
    | play_store ↦ with_package u link.play_package_name referrer
    | custom_https ↦ ok u
  ]

  abbrev pub redirect_to : TrackingLink → Request → Outcome RedirectError RedirectResolution
  redirect_to link request = do
    deferred ←
        build_deferred_referrer by_locale request.click_id (value_of link request)
          request.deep_link_params (maximum_of request)
    fits (maximum_of request) deferred.referrer
    u ← parsed link.destination_url
    destination ← destination_of link u deferred.referrer
    ok (redirected link request deferred (urls.print destination))

  unfoldable pub resolve_redirect :
      Option TrackingLink → Request → Outcome RedirectError RedirectResolution
  unfolding build_deferred_referrer
  resolve_redirect none request = ok (fallback_response request.fallback_destination)
  resolve_redirect (some link) request =
      if is_active link.status
      then redirect_to link request
      else ok (fallback_response request.fallback_destination)

abbrev pub prefetch_evidence : TrackingLink → Request → RedirectResolution
prefetch_evidence link request = record (fallback_response request.fallback_destination) {
  prefetch = some (touch_of link request (some (or_else request.client_class bot)) true);
}
