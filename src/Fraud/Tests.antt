-- ===== src/Fraud/Tests.antt =====
-- The rules at an install three seconds after its click.
use open_mmp.Common.{
  ◌≡◌, ◌≢◌, ◌↔◌, length, ℕ, throw, Option, All, refl, true, List, [], ◌∷◌, none, some, String, ok,
  map,
}
use open_mmp.Instant.{to_instant, codes}
use open_mmp.Attribution.Types.{Digests, TimeStatus}
use open_mmp.Attribution.Order.{units}
use open_mmp.Fraud.Assert.{
  fraud_bundle_rule_invalid, between, is_bundle_id, assert_rules, assert_fraud_bundle,
}
use open_mmp.Fraud.Assert.Laws.{IsBase, IsPrivate, IsAllowed, assert_fraud_bundle_iff}
use open_mmp.Fraud.Value.{
  ratio, whole, Value, undefined, null, number, object, Members, no_members, member, printed,
}
use open_mmp.Fraud.Bundle.{unlisted, Layers, FraudRule, FraudBundle, default_fraud_bundle}
use open_mmp.Fraud.Install.{FraudRuleHit, InstallRuleInput, type_error, evaluate_install_rules}

evaluating : Unit {0}
unfolding evaluate_install_rules to_instant
evaluating = tt

abbrev digests : Digests
digests = record {
  record_digest = λ r. r.record_id;
  payload_digest = λ p. p.rest;
  stale_policy_digest = λ before authority policy_version. before;
  click_policy_digest = λ threshold authority policy_version. policy_version;
}

-- The referrer gives a click ten minutes before the redirector's.
abbrev quick : InstallRuleInput
quick = record {
  install_begin_at_server = some "2026-08-20T12:00:03.000Z";
  referrer_click_at_server = some "2026-08-20T11:50:00.000Z";
  referrer_click_at_server_status = some TimeStatus.available;
  redirector_click_at = some "2026-08-20T12:00:00.000Z";
  policy = record {
    threshold_seconds = whole 10;
    authority = "server";
    policy_version = "1";
    policy_digest = "1";
  };
  bundle = none;
}

abbrev layers_of : Option Layers → Layers
layers_of (some layers) = layers
layers_of none = record { base = undefined; operator = undefined; private_layer = undefined }

abbrev members_of : Value → Members
members_of (object ms) = ms
members_of _ = no_members

abbrev base_of : Option Layers → Members
base_of layers = members_of (layers_of layers).base

rules_of : List FraudRuleHit → List String
rules_of = map (λ h. h.rule_id)

quick_tests :
    (hits : List FraudRuleHit) × (evaluate_install_rules digests quick ≡ ok hits)
    × (rules_of hits ≡ "ctit-lower-bound-v1" ∷ "referrer-redirector-divergence-v1" ∷ [])
unfolding evaluating rules_of
quick_tests = (_, refl, refl)

-- Half a second between the clicks, and a bundle that says 0.4 of one; one that says 0.6; and one whose base
-- layer is null, which passes the check of bundles.
abbrev with_base : Value → FraudBundle
with_base base = record default_fraud_bundle {
  layers = some (record { base = base; operator = undefined; private_layer = undefined });
}

abbrev tenths : ℕ → FraudBundle
tenths n =
    with_base
      (object (member "referrer_redirector_divergence_seconds" (number (ratio n 9) "") no_members))

abbrev apart : FraudBundle → InstallRuleInput
apart b = record quick {
  install_begin_at_server = some "2026-08-20T13:00:00.000Z";
  referrer_click_at_server = some "2026-08-20T11:59:59.500Z";
  bundle = some b;
}

fraction_tests :
    ((hits : List FraudRuleHit) × (evaluate_install_rules digests (apart (tenths 4)) ≡ ok hits)
      × (rules_of hits ≡ "referrer-redirector-divergence-v1" ∷ []))
    × (evaluate_install_rules digests (apart (tenths 6)) ≡ ok [])
    × (evaluate_install_rules digests (apart (with_base null)) ≡ throw type_error)
    × (assert_fraud_bundle (with_base null) ≡ ok tt)
    × (assert_fraud_bundle (record default_fraud_bundle {
      rules = some (record { id = "rule"; inputs = some []; action = unlisted "drop" } ∷ []);
    })
        ≡ throw (fraud_bundle_rule_invalid "rule"))
unfolding evaluating rules_of assert_fraud_bundle assert_rules units printed
fraction_tests = ((_, refl, refl), refl, refl, refl, refl)

assert_fraud_bundle_iff_example : (assert_fraud_bundle default_fraud_bundle ≡ ok tt) ↔ (
    (is_bundle_id default_fraud_bundle.id ≡ true)
    × (between 1 128 (length (units (codes default_fraud_bundle.version))) ≡ true)
    × ((layers : Layers) × (default_fraud_bundle.layers ≡ some layers)
        × IsBase layers.base
        × IsPrivate layers.private_layer)
    × ((rules : List FraudRule) × (default_fraud_bundle.rules ≡ some rules)
        × (rules ≢ [])
        × All IsAllowed rules))
assert_fraud_bundle_iff_example = assert_fraud_bundle_iff default_fraud_bundle

assert_tests : assert_fraud_bundle default_fraud_bundle ≡ ok tt
unfolding assert_fraud_bundle assert_rules units printed
assert_tests = refl
