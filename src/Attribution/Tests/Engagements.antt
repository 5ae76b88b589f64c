-- ===== src/Attribution/Tests/Engagements.antt =====
-- Privacy marks, a postback and an opened link.
use open_mmp.Common.{
  ◌≡◌, ◌↔◌, refl, List, [], ◌∷◌, none, some, true, false, lookup, any, if◌then◌else◌,
}
use open_mmp.Attribution.Types.{LinkStatus, CandidateAttempt}
use open_mmp.Attribution.Candidates.{key_eq}
use open_mmp.Attribution.Results.{
  Lifecycle, evidence_key, non_organic, unattributed, AttributionReason,
}
use open_mmp.Attribution.Lifecycle.{
  PrivacyRequest, RetentionExpiration, mark_affected, mark_requests, mark_expirations,
  privacy_index,
}
use open_mmp.Attribution.Lifecycle.Laws.{expires, last_mark, request_marks, privacy_index-lookup}
use open_mmp.Attribution.Engagement.{
  postback_verdict, make_aggregate_postback_attribution, make_deep_link_attribution,
}
use open_mmp.Attribution.Engagement.Laws.{IsCountable, aggregate_postback-non_organic_iff}
use open_mmp.Attribution.Tests.Samples.{attempt, empty, server}

engaging : Unit {0}
unfolding mark_affected mark_requests mark_expirations privacy_index postback_verdict
    make_aggregate_postback_attribution make_deep_link_attribution
engaging = tt

-- One record is redacted and then purged; a request that is not completed redacts another.
abbrev requests : List PrivacyRequest
requests =
    record {
      privacy_request_id = "p1";
      tenant_id = "acme";
      app_id = "game";
      completed = true;
      requested_on_device = false;
      deletion_subject_ref = none;
      reason_code = "erasure";
      policy_version = "1";
      completed_at = some "2026-08-21T00:00:00.000Z";
      affected_records =
          record { record_id = "r1"; lifecycle_status = Lifecycle.redacted }
          ∷ record { record_id = "r1"; lifecycle_status = Lifecycle.purged }
          ∷ [];
    }
    ∷ record {
      privacy_request_id = "p1";
      tenant_id = "acme";
      app_id = "game";
      completed = false;
      requested_on_device = false;
      deletion_subject_ref = none;
      reason_code = "erasure";
      policy_version = "1";
      completed_at = some "2026-08-21T00:00:00.000Z";
      affected_records = record { record_id = "r2"; lifecycle_status = Lifecycle.redacted } ∷ [];
    }
    ∷ []

abbrev expirations : List RetentionExpiration
expirations = record { tenant_id = "acme"; app_id = "game"; record_id = "r3" } ∷ []

privacy_tests :
    (lookup ⦃e = key_eq⦄ (evidence_key "acme" "game" "r1") (privacy_index requests expirations)
      ≡ some Lifecycle.purged)
    × (lookup ⦃e = key_eq⦄ (evidence_key "acme" "game" "r2") (privacy_index requests expirations)
        ≡ none)
    × (lookup ⦃e = key_eq⦄ (evidence_key "acme" "game" "r3") (privacy_index requests expirations)
        ≡ some Lifecycle.purged)
unfolding engaging
privacy_tests = (refl, refl, refl)

privacy_index-lookup_example :
    lookup ⦃e = key_eq⦄ (evidence_key "acme" "game" "r1") (privacy_index requests expirations) ≡ (
      if any (expires (evidence_key "acme" "game" "r1")) expirations
      then some Lifecycle.purged
      else last_mark (evidence_key "acme" "game" "r1") (request_marks requests))
privacy_index-lookup_example =
    privacy_index-lookup requests expirations (evidence_key "acme" "game" "r1")

abbrev postback : CandidateAttempt
postback = attempt "r4" "skan_postback" (record empty {
  signature_verified = true;
  did_win = true;
  source_identifier = some "5239";
  coarse_conversion_value = some "high";
})

aggregate_postback-non_organic_iff_example :
    (((make_aggregate_postback_attribution postback []).status ≡ non_organic)
      ↔ IsCountable postback.event.payload)
    × (((make_aggregate_postback_attribution postback []).reason_code
          ≡ AttributionReason.skan_postback_verified)
        ↔ IsCountable postback.event.payload)
aggregate_postback-non_organic_iff_example = aggregate_postback-non_organic_iff postback []

-- A deferred link that the install's own click opens.
abbrev opened : CandidateAttempt
opened =
    record (attempt "r5" "deep_link_open"
      (record empty { click_id = some "c1"; android_deferred_referrer = true })) {
        server = record server {
          deep_link_resolution = some (record {
            status = LinkStatus.active;
            install_attribution_click_id = some "c1";
            campaign_id = none;
          });
        };
      }

opened_tests :
    ((make_aggregate_postback_attribution postback []).status ≡ non_organic)
    × ((make_deep_link_attribution opened []).status ≡ unattributed)
    × ((make_deep_link_attribution opened []).reason_code
        ≡ AttributionReason.deep_link_install_click_reused)
unfolding engaging
opened_tests = (refl, refl, refl)
