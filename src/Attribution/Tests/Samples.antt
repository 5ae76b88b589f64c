-- ===== src/Attribution/Tests/Samples.antt =====
-- Sample attempts: a click and the install that it led to, of one app.
use open_mmp.Common.{true, false, [], ◌∷◌, none, some, String, pos}
use open_mmp.Attribution.Types.{ReferrerStatus, Server, Payload, CandidateAttempt, Digests}

abbrev pub digests : Digests
digests = record {
  record_digest = λ r. r.record_id;
  payload_digest = λ p. p.rest;
  stale_policy_digest = λ before authority policy_version. before;
  click_policy_digest = λ threshold authority policy_version. policy_version;
}

abbrev pub empty : Payload
empty = record {
  installation_id = none;
  prior_installation_id = none;
  install_type = none;
  click_id = none;
  referrer_status = none;
  play_organic_marker = false;
  install_begin_at_server = none;
  install_begin_at_server_status = none;
  meta_referrer_status = none;
  meta_attribution_model = none;
  adservices_status = none;
  import_context = none;
  redirector_click_at = none;
  redirector_time_status = none;
  bot_prefetch = false;
  replay_suspected = false;
  referrer_click_at_server = none;
  referrer_click_at_server_status = none;
  remote_click_ref = none;
  android_deferred_referrer = false;
  signature_verified = false;
  did_win = false;
  source_identifier = none;
  conversion_value = none;
  coarse_conversion_value = none;
  anchor_source = none;
  correction_target_record_id = none;
  campaign_id = none;
  network = none;
  ad_network = none;
  country = none;
  installation_level = false;
  amount = record { currency = "USD"; amount_unscaled = pos 0; amount_scale = 0 };
  rest = "{}";
}

abbrev pub server : Server
server = record {
  tenant_id = "acme";
  app_id = "game";
  received_at = "2026-08-20T12:00:05.000Z";
  processing_purposes = [];
  withdrawals = [];
  alternative_legal_bases = [];
  timestamp_stale_policy = none;
  click_injection_policy = none;
  deep_link_resolution = none;
  fraud_enabled = true;
  fraud_actions_enabled = false;
  fraud_rule_bundle = none;
  policy_digest = "policy";
  rest = "";
}

abbrev pub attempt : String → String → Payload → CandidateAttempt
attempt record_id event_name payload = record {
  server = server;
  event = record {
    record_id = record_id;
    delivery_id = record_id;
    tenant_id = "acme";
    app_id = "game";
    producer = "sdk";
    event_id = record_id;
    event_name = event_name;
    schema_version = "1";
    occurred_at = "2026-08-20T12:00:00.000Z";
    received_at = "2026-08-20T12:00:05.000Z";
    processing_purpose_id = none;
    alternative_legal_basis_id = none;
    processing_sequence = 7;
    aggregate_scope = false;
    late = false;
    payload = payload;
    rest = "";
  };
  batch_id = "batch";
}

abbrev pub click : CandidateAttempt
click =
    attempt "r1" "click"
      (record empty { click_id = some "c1"; redirector_click_at = some "2026-08-20T11:50:00.000Z" })

abbrev pub install : CandidateAttempt
install = attempt "r2" "install" (record empty {
  installation_id = some "i1";
  click_id = some "c1";
  referrer_status = some ReferrerStatus.available;
  install_begin_at_server = some "2026-08-20T11:55:00.000Z";
})

-- The install of a person who has withdrawn the consent, under a legal basis.
abbrev pub withdrawn : CandidateAttempt
withdrawn = record install {
  server = record server {
    processing_purposes =
        record { processing_purpose_id = "ads"; consent_required = true; policy_version = "p1" }
        ∷ [];
    withdrawals =
        record {
          processing_purpose_id = "ads";
          withdrawal_recognized_at = "2026-08-19T00:00:00.000Z";
          withdrawal_recognized_sequence = 7;
        }
        ∷ [];
    alternative_legal_bases =
        record {
          alternative_legal_basis_id = "fraud";
          processing_purpose_id = "ads";
          effective_at = "2026-01-01T00:00:00.000Z";
          policy_version = "b1";
        }
        ∷ [];
  };
  event = record install.event {
    processing_purpose_id = some "ads";
    alternative_legal_basis_id = some "fraud";
  };
}
