-- ===== src/Redirector/Tests.antt =====
-- A query with a parameter given twice, one that is not declared and one that is no token.
use open_mmp.Common.{
  ◌+◌, ◌≡◌, refl, List, [], ◌∷◌, some, String, lookup, string_eq, length, filter, is_some, ◌⊎◌,
  ◌++◌, Option, none, Outcome, ok, throw, false, true,
}
use open_mmp.Attribution.Order.{units}
use open_mmp.Instant.{codes}
use open_mmp.Redirector.Referrer.{
  RedirectError, Text, encode_install_referrer, split, assert_deep_link_value,
  build_deferred_referrer,
}
use open_mmp.Redirector.Resolve.{
  ClientClass, DestinationKind, LinkStatus, TrackingLink, RedirectClick, RedirectResolution,
  Request, Urls, fallback_response, is_active, resolve_redirect,
}
use open_mmp.Redirector.Client.{classify_client_class}
use open_mmp.Redirector.Resolve.Laws.{IsClickOf, resolve_redirect-click}
use open_mmp.Redirector.Parameters.{strip_prefix, admitted, bind_from, bind_deep_link_parameters}
use open_mmp.Redirector.Parameters.Laws.{IsSafe, last_value, bind_deep_link_parameters-values}

binding : Unit {0}
unfolding strip_prefix admitted bind_from bind_deep_link_parameters
binding = tt

abbrev query : List (String × String)
query =
    ("dlp_item", "sword")
    ∷ ("dlp_item", "shield-2")
    ∷ ("dlp_price", "10")
    ∷ ("utm", "x")
    ∷ ("dlp_level", "a b")
    ∷ []

abbrev declared : List String
declared = "item" ∷ "level" ∷ []

binding_tests :
    ((bind_deep_link_parameters query declared).values ≡ ("item", "shield-2") ∷ [])
    × ((bind_deep_link_parameters query declared).dropped ≡ 3)
unfolding binding
binding_tests = (refl, refl)

bind_deep_link_parameters-values_example :
    ((name : String)
      → (lookup name (bind_deep_link_parameters query declared).values
          ≡ last_value declared name query)
        × ((value : String)
            → lookup name (bind_deep_link_parameters query declared).values ≡ some value
            → IsSafe declared name value))
    × ((bind_deep_link_parameters query declared).dropped
          + length (filter (λ p. is_some (admitted declared p)) query)
        ≡ length query)
bind_deep_link_parameters-values_example = bind_deep_link_parameters-values query declared

-- URLs that are their texts, with the parameters put behind.
abbrev urls : Urls Text
urls = record {
  parse = λ url. some (codes url);
  set = λ u name value. u ++ 38 ∷ (codes name ++ 61 ∷ value);
  print = λ u. u;
}

abbrev link : TrackingLink
link = record {
  tracking_link_id = "l1";
  tenant_id = "acme";
  app_id = "game";
  destination_kind = DestinationKind.play_store;
  destination_url = "https://play.google.com/store/apps/details";
  play_package_name = some "com.example.game";
  network = some "net";
  site_id = none;
  campaign_id = some "";
  ad_group_id = none;
  creative_id = none;
  deep_link_value = some "/shop/item-1";
  status = LinkStatus.active;
}

abbrev request : Request
request = record {
  fallback_destination = "https://example.com/";
  now = "2026-08-20T12:00:00.000Z";
  click_id = "abcdefghijklmnopqrstuv";
  remote_click_ref = none;
  source_rate_class = none;
  client_class = none;
  deep_link_params = ("item", "a b") ∷ [];
  referrer_maximum_encoded_characters = none;
  deep_link_value = none;
}

abbrev in_place : List (String × String) → List (String × String)
in_place params = params

abbrev resolution_or : Outcome RedirectError RedirectResolution → RedirectResolution
resolution_or (ok r) = r
resolution_or (throw e) = fallback_response ""

abbrev resolved : RedirectResolution
resolved = resolution_or (resolve_redirect urls in_place (some link) request)

resolving : Unit {0}
unfolding resolve_redirect build_deferred_referrer assert_deep_link_value encode_install_referrer
    split units
resolving = tt

redirected_to : resolve_redirect urls in_place (some link) request ≡ ok resolved
unfolding resolving
redirected_to = refl

resolve_redirect-click_example :
    ((is_active LinkStatus.active ≡ false) × (resolved ≡ fallback_response "https://example.com/"))
    ⊎ ((is_active LinkStatus.active ≡ true)
        × ((c : RedirectClick) × IsClickOf urls in_place link request resolved c))
resolve_redirect-click_example =
    resolve_redirect-click urls in_place link request resolved redirected_to

abbrev referrer_of : Option RedirectClick → Text
referrer_of none = []
referrer_of (some c) = c.referrer

resolve_tests :
    referrer_of resolved.click
    ≡ codes "omv=1&cid=abcdefghijklmnopqrstuv&dl=%2Fshop%2Fitem-1&dlp_item=a+b"
unfolding resolving
resolve_tests = refl

abbrev in_lower_case : String → String
in_lower_case text = text

client_tests :
    (classify_client_class in_lower_case "mozilla/5.0 (iphone)" ≡ ClientClass.mobile_app_eligible)
    × (classify_client_class in_lower_case "linkpreview android" ≡ ClientClass.bot)
    × (classify_client_class in_lower_case "curl" ≡ ClientClass.other)
client_tests = (refl, refl, refl)
