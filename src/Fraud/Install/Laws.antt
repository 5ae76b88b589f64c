-- ===== src/Fraud/Install/Laws.antt =====
-- Which rule hits which install.
use open_mmp.Common.{
  ◌+◌, ◌≤◌, ◌<◌, ◌≡◌, lookup, string_eq, ◌&&◌, [], ◌∷◌, if◌then◌else◌, Bool, true, List, ◌++◌,
  String, str_eq, truthy, any,
}
use open_mmp.Fraud.Bundle.{FraudBundle}
use open_mmp.Fraud.Value.{Number, Value}
use open_mmp.Fraud.Install.{
  FraudRuleHit, InstallRuleInput, instant, is_before, is_available_status, anomaly,
  lower_bound_hits, divergence_hits, order_hits,
}
use open_mmp.Fraud.Install.Seconds.{Stated}
use open_mmp.Fraud.Install.Times.{Timed, Within, Apart}

-- Whether a rule hits.
abbrev pub hits_rule : String → List FraudRuleHit → Bool
hits_rule rule_id = any (λ h. str_eq h.rule_id rule_id)

module _ (input : InstallRuleInput) where
  -- The install began before the click.
  abbrev pub IsAnomalous : Type 0
  IsAnomalous =
      Timed input.redirector_click_at input.install_begin_at_server
        (λ clicked begun. begun < clicked)

  -- The install began at the click or after it, but not as late as the threshold.
  abbrev pub IsTooSoon : Type 0
  IsTooSoon =
      Timed input.redirector_click_at input.install_begin_at_server
        (λ clicked begun. (clicked ≤ begun) × Within input.policy.threshold_seconds begun clicked)

  -- The referrer's click, with an available time, is a second or more after the install began.
  abbrev pub IsOutOfOrder : Type 0
  IsOutOfOrder =
      (is_available_status input.referrer_click_at_server_status ≡ true)
      × Timed input.install_begin_at_server input.referrer_click_at_server
          (λ begun referred. begun + 1000 ≤ referred)

  -- The install gives a time and is not before the click, and the clicks of the referrer and of the
  -- redirector are further apart than the base layer says.
  abbrev pub IsDivergent : List (String × Value) → Type 0
  IsDivergent base =
      (truthy input.install_begin_at_server ≡ true)
      × (¬ IsAnomalous)
      × ((seconds : Number) × Stated (lookup "referrer_redirector_divergence_seconds" base) seconds
          × Timed input.referrer_click_at_server input.redirector_click_at (Apart seconds))

  module _ (bundle : FraudBundle) (seconds : Number) where
    abbrev later_hits : List FraudRuleHit
    later_hits =
        if truthy input.redirector_click_at && truthy input.install_begin_at_server
        then (if is_before (instant input.install_begin_at_server)
              (instant input.redirector_click_at) 0
            then anomaly input bundle ∷ []
            else lower_bound_hits input bundle ++ divergence_hits input bundle seconds)
        else []

    abbrev hits : List FraudRuleHit
    hits = order_hits input bundle ++ later_hits
