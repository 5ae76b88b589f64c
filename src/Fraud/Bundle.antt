-- ===== src/Fraud/Bundle.antt =====
-- Fraud bundles, and the parameters and actions that the rules look up in them. A bundle comes from
-- outside, so that what the code checks of it at run time may be otherwise; its texts are texts.
use open_mmp.Fraud.Value.{
  Number, ratio, whole, Value, undefined, null, number, object, no_members, member, entries,
}
use open_mmp.Common.{
  or_else, List, [], ◌∷◌, Option, none, some, String, str_eq, find, lookup, string_eq,
}

pub data FraudAction : Type 0 where
  allow flag exclude quarantine : FraudAction
  unlisted : String → FraudAction  -- any other value, as it is printed

-- `layers`; a layer that is missing is undefined.
pub record Layers : Type 0 where
  pub base : Value
  pub operator : Value
  pub private_layer : Value

pub record FraudRule : Type 0 where
  pub id : String
  pub inputs : Option (List String)  -- none where they are no array
  pub action : FraudAction

pub record FraudBundle : Type 0 where
  pub id : String
  pub version : String
  pub layers : Option Layers  -- none for a value that is not truthy
  pub rules : Option (List FraudRule)  -- none where they are no array

-- `server.fraud_rule_bundle`: a revision of a bundle, as it was registered.
pub record RegisteredBundle : Type 0 where
  pub definition : FraudBundle
  pub rule_bundle_id : String
  pub rule_bundle_version : String
  pub definition_digest : String
  pub rule_bundle_hash : String

abbrev rule : String → List String → FraudAction → FraudRule
rule id inputs action = record { id = id; inputs = some inputs; action = action }

abbrev pub default_fraud_bundle : FraudBundle
default_fraud_bundle = record {
  id = "fraud-conservative";
  version = "1.0.0";
  layers = some (record {
    base = object (
        member "ctit_lower_bound_seconds" (number (whole 10) "10") (
          member "ctit_negative_rate_threshold" (number (ratio 5 99) "0.05") (
            member "referrer_redirector_divergence_seconds" (number (whole 300) "300") (
              member "source_day_min_clicks" (number (whole 1000) "1000") (
                member "source_day_cvr_median_multiplier" (number (ratio 2 9) "0.2") (
                  member "source_day_ctit_p50_min_seconds" (number (whole 86400) "86400") (
                    member "source_day_ctit_p95_p50_max_ratio" (number (whole 3) "3")
                      (member "quarantine_hours" (number (whole 72) "72") no_members))))))));
    operator = undefined;
    private_layer = undefined;
  });
  rules = some (
      rule "transport-bot-prefetch-v1" ("prefetch_signal" ∷ []) exclude
      ∷ rule "transport-replay-v1" ("replay_signal" ∷ []) exclude
      ∷ rule "referrer-server-order-v1"
          ("referrer_click_at_server" ∷ "install_begin_at_server" ∷ []) flag
      ∷ rule "ctit-lower-bound-v1" ("redirector_click_at" ∷ "install_begin_at_server" ∷ []) flag
      ∷ rule "ctit-clock-anomaly-v1" ("redirector_click_at" ∷ "install_begin_at_server" ∷ []) allow
      ∷ rule "referrer-redirector-divergence-v1"
          ("referrer_click_at_server" ∷ "redirector_click_at" ∷ []) flag
      ∷ rule "source-day-click-flooding-v1" ("source_day_aggregate" ∷ []) flag
      ∷ rule "device-integrity-combination-v1" ("integrity_verdict" ∷ "ctit" ∷ []) flag
      ∷ []);
}

-- A finite number, and else the fallback.
abbrev pub number_or : Option Value → Number → Number
number_or (some (number n printed)) fallback = n
number_or _ fallback = fallback

-- The parameter in a base layer; reading it off `null` or `undefined` is a TypeError, here none.
abbrev pub parameter_of : Value → String → Number → Option Number
parameter_of undefined name fallback = none
parameter_of null name fallback = none
parameter_of (object ms) name fallback = some (number_or (lookup name (entries ms)) fallback)
parameter_of _ name fallback = some fallback

abbrev pub parameter_in : Option Layers → String → Number → Option Number
parameter_in none name fallback = none
parameter_in (some layers) name fallback = parameter_of layers.base name fallback

abbrev pub fraud_number_parameter : FraudBundle → String → Number → Option Number
fraud_number_parameter bundle = parameter_in bundle.layers

abbrev action_or : Option FraudRule → FraudAction → FraudAction
action_or none fallback = fallback
action_or (some r) fallback = r.action

-- Rules that are no array have passed no check: `find` of them is a TypeError, here the fallback.
abbrev pub fraud_rule_action : FraudBundle → String → FraudAction → FraudAction
fraud_rule_action bundle rule_id fallback =
    action_or (find (λ r. str_eq r.id rule_id) (or_else bundle.rules [])) fallback
