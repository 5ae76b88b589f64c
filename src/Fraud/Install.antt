-- ===== src/Fraud/Install.antt =====
-- `evaluateInstallRules` of packages/fraud-rules/src/index.ts. `instant` gives NaN for a text that is
-- no timestamp, here `none`: every comparison with it fails.
pub mod Seconds
pub mod Times
pub mod Laws
use open_mmp.Common.{
  ℕ, ◌+◌, ◌*◌, Bool, true, false, ◌&&◌, ◌||◌, List, [], ◌∷◌, ◌++◌, Option, none, some, String,
  str_eq, truthy, ltb, leb, or_else, if◌then◌else◌, Outcome, ok, throw,
}
use open_mmp.Instant.{to_instant}
use open_mmp.Attribution.Types.{ClickInjectionPolicy, Digests, TimeStatus}
use open_mmp.Attribution.Install.{is_available}
use open_mmp.Fraud.Value.{Number, whole, is_within, is_apart}
use open_mmp.Fraud.Bundle.{
  FraudAction, allow, flag, FraudBundle, default_fraud_bundle, fraud_number_parameter,
  fraud_rule_action,
}

pub data RuleDecision : Type 0 where
  clear suspected confirmed : RuleDecision

pub data RuleReason : Type 0 where
  click_injection_suspected ctit_clock_anomaly referrer_time_inconsistent : RuleReason
  click_flooding_suspected : RuleReason

pub data EvidenceType : Type 0 where
  ctit_category ctit_clock_diagnostic server_clock_order source_day_distribution : EvidenceType

pub record FraudRuleHit : Type 0 where
  pub rule_id : String
  pub decision : RuleDecision
  pub action : FraudAction
  pub reason_code : RuleReason
  pub evidence_type : EvidenceType

pub data Error : Type 0 where
  click_injection_policy_digest_mismatch : Error
  type_error : Error  -- a parameter of a base layer that is null

pub record InstallRuleInput : Type 0 where
  pub install_begin_at_server : Option String
  pub referrer_click_at_server : Option String
  pub referrer_click_at_server_status : Option TimeStatus
  pub redirector_click_at : Option String
  pub policy : ClickInjectionPolicy
  pub bundle : Option FraudBundle

-- `instant` of a text that is given.
abbrev pub instant : Option String → Option ℕ
instant none = none
instant (some value) = to_instant value

-- `<` and `>=` of two instants, the second moved on by a span.
abbrev pub is_before : Option ℕ → Option ℕ → ℕ → Bool
is_before (some a) (some b) span = ltb a (b + span)
is_before _ _ span = false

abbrev pub is_since : Option ℕ → Option ℕ → ℕ → Bool
is_since (some a) (some b) span = leb (b + span) a
is_since _ _ span = false

-- Closer than so many seconds, and further apart than so many.
abbrev pub is_sooner : Option ℕ → Option ℕ → Number → Bool
is_sooner (some a) (some b) seconds = is_within 1000 seconds a b
is_sooner _ _ seconds = false

abbrev pub diverge : Option ℕ → Option ℕ → Number → Bool
diverge (some a) (some b) seconds = is_apart 1000 seconds a b
diverge _ _ seconds = false

abbrev pub is_available_status : Option TimeStatus → Bool
is_available_status none = false
is_available_status (some s) = is_available s

abbrev pub hit : String → RuleDecision → FraudAction → RuleReason → EvidenceType → FraudRuleHit
hit rule_id decision action reason_code evidence_type = record {
  rule_id = rule_id;
  decision = decision;
  action = action;
  reason_code = reason_code;
  evidence_type = evidence_type;
}

abbrev pub hit_if : Bool → FraudRuleHit → List FraudRuleHit
hit_if true h = h ∷ []
hit_if false h = []

module _ (input : InstallRuleInput) (bundle : FraudBundle) where
  abbrev begun : Option ℕ
  begun = instant input.install_begin_at_server

  abbrev clicked : Option ℕ
  clicked = instant input.redirector_click_at

  abbrev referred : Option ℕ
  referred = instant input.referrer_click_at_server

  -- The referrer's click is a second or more after the install began.
  abbrev pub order_hits : List FraudRuleHit
  order_hits =
      hit_if
        (is_available_status input.referrer_click_at_server_status
          && truthy input.referrer_click_at_server
          && truthy input.install_begin_at_server
          && is_since referred begun 1000)
        (hit "referrer-server-order-v1" confirmed
          (fraud_rule_action bundle "referrer-server-order-v1" flag) referrer_time_inconsistent
          server_clock_order)

  abbrev pub anomaly : FraudRuleHit
  anomaly = hit "ctit-clock-anomaly-v1" clear allow ctit_clock_anomaly ctit_clock_diagnostic

  abbrev pub lower_bound_hits : List FraudRuleHit
  lower_bound_hits = hit_if (is_sooner begun clicked input.policy.threshold_seconds) (
      hit "ctit-lower-bound-v1" suspected (fraud_rule_action bundle "ctit-lower-bound-v1" flag)
        click_injection_suspected ctit_category)

  abbrev pub divergence_hits : Number → List FraudRuleHit
  divergence_hits seconds =
      hit_if (truthy input.referrer_click_at_server && diverge referred clicked seconds) (
        hit "referrer-redirector-divergence-v1" suspected
          (fraud_rule_action bundle "referrer-redirector-divergence-v1" flag)
          referrer_time_inconsistent server_clock_order)

  -- The rules on the redirector's click: an install before it is an anomaly of the clocks, and ends
  -- the evaluation.
  abbrev pub timely_hits : Option Number → Option (List FraudRuleHit)
  timely_hits none = none
  timely_hits (some seconds) = some (lower_bound_hits ++ divergence_hits seconds)

  abbrev pub click_hits : Option (List FraudRuleHit)
  click_hits =
      if truthy input.redirector_click_at && truthy input.install_begin_at_server
      then (if is_before begun clicked 0
          then some (anomaly ∷ [])
          else timely_hits
              (fraud_number_parameter bundle "referrer_redirector_divergence_seconds" (whole 300)))
      else some []

  abbrev pub all_hits : Option (List FraudRuleHit) → Outcome Error (List FraudRuleHit)
  all_hits none = throw type_error
  all_hits (some later) = ok (order_hits ++ later)

-- `assertClickInjectionPolicy`.
abbrev pub has_policy_digest : Digests → ClickInjectionPolicy → Bool
has_policy_digest dg p =
    str_eq p.policy_digest (dg.click_policy_digest p.threshold_seconds p.authority p.policy_version)

unfoldable pub evaluate_install_rules :
    Digests → InstallRuleInput → Outcome Error (List FraudRuleHit)
evaluate_install_rules dg input =
    let bundle = or_else input.bundle default_fraud_bundle in
    if has_policy_digest dg input.policy
    then all_hits input bundle (click_hits input bundle)
    else throw click_injection_policy_digest_mismatch
