-- ===== src/Attribution/Referrer.antt =====
-- `mapInstallReferrer` of packages/attribution-core/src/install-referrer-mapping.ts. The parameter "cid"
-- of a query, as the platform reads it, is a function.
use open_mmp.Common.{Bool, true, false, Option, none, some, String, truthy, if◌then◌else◌}
use open_mmp.Attribution.Types.{ReferrerStatus}

pub data InstallReferrerClientResponse : Type 0 where
  ok service_unavailable feature_not_supported developer_error : InstallReferrerClientResponse
  service_disconnected : InstallReferrerClientResponse

pub data TerminalReason : Type 0 where
  unknown_click_id no_referrer install_referrer_unsupported : TerminalReason
  install_referrer_unavailable : TerminalReason

pub record InstallReferrerMapping : Type 0 where
  pub referrer_status : ReferrerStatus
  pub referrer_client_response : InstallReferrerClientResponse
  pub retry_bounded : Bool  -- retry === "bounded"
  pub terminal_reason : Option TerminalReason
  pub requires_window_evaluation : Bool
  pub click_id : Option String
  pub loud_integrator_error : Bool

abbrev pub mapping :
    ReferrerStatus
    → InstallReferrerClientResponse
    → Bool
    → TerminalReason
    → Bool
    → InstallReferrerMapping
mapping status response bounded reason loud = record {
  referrer_status = status;
  referrer_client_response = response;
  retry_bounded = bounded;
  terminal_reason = some reason;
  requires_window_evaluation = false;
  click_id = none;
  loud_integrator_error = loud;
}

-- What the referrer's click id makes of it.
abbrev pub with_click_id : Option String → InstallReferrerMapping
with_click_id none = mapping ReferrerStatus.available ok false unknown_click_id false
with_click_id (some click_id) =
    if truthy (some click_id)
    then record {
      referrer_status = ReferrerStatus.available;
      referrer_client_response = ok;
      retry_bounded = false;
      terminal_reason = none;
      requires_window_evaluation = true;
      click_id = some click_id;
      loud_integrator_error = false;
    }
    else mapping ReferrerStatus.available ok false unknown_click_id false

abbrev pub of_referrer : (String → Option String) → Option String → InstallReferrerMapping
of_referrer get_cid none = mapping ReferrerStatus.none ok false no_referrer false
of_referrer get_cid (some value) =
    if truthy (some value)
    then with_click_id (get_cid value)
    else mapping ReferrerStatus.none ok false no_referrer false

abbrev pub map_install_referrer :
    (String → Option String)
    → InstallReferrerClientResponse
    → Option String
    → InstallReferrerMapping
map_install_referrer get_cid ok referrer = of_referrer get_cid referrer
map_install_referrer get_cid feature_not_supported referrer =
    mapping ReferrerStatus.unsupported feature_not_supported false install_referrer_unsupported
      false
map_install_referrer get_cid developer_error referrer =
    mapping ReferrerStatus.unavailable developer_error false install_referrer_unavailable true
map_install_referrer get_cid response referrer =
    mapping ReferrerStatus.unavailable response true install_referrer_unavailable false
