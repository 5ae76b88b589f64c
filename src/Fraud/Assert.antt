-- ===== src/Fraud/Assert.antt =====
-- `assertFraudBundle` and `fraudBundleHash` of packages/fraud-rules/src/index.ts, over a bundle whose
-- identifiers, version and inputs are texts.
pub mod Laws
use open_mmp.Common.{
  ℕ, Bool, true, false, not, ◌&&◌, ◌||◌, List, [], ◌∷◌, Option, none, some, String, str_eq, all,
  is_some, or_else, length, leb, ◌==◌, if◌then◌else◌, Outcome, ok, throw, ◌>>=◌, ◌>>◌,
}
use open_mmp.Instant.{codes}
use open_mmp.Attribution.Order.{units}
use open_mmp.Fraud.Value.{Value, null, object, entries, is_truthy, printed}
use open_mmp.Fraud.Bundle.{FraudAction, unlisted, Layers, FraudRule, FraudBundle}

pub data BundleError : Type 0 where
  fraud_bundle_id_invalid fraud_bundle_version_invalid fraud_bundle_rules_invalid : BundleError
  fraud_bundle_layers_invalid : BundleError
  fraud_bundle_private_layer_must_be_digest_only : BundleError
  fraud_bundle_rule_invalid integrity_only_rule_forbidden : String → BundleError
  -- The checks of `boundFraudBundle`.
  fraud_rule_bundle_identity_mismatch fraud_rule_bundle_definition_digest_mismatch : BundleError
  fraud_rule_bundle_hash_mismatch : BundleError

abbrev pub between : ℕ → ℕ → ℕ → Bool
between a b n = leb a n && leb n b

abbrev pub is_lower : ℕ → Bool
is_lower = between b'a' b'z'

abbrev pub is_digit : ℕ → Bool
is_digit = between b'0' b'9'

-- [A-Za-z0-9._:-]
abbrev pub is_identifier_code : ℕ → Bool
is_identifier_code c =
    between b'A' b'Z' c
    || is_lower c
    || is_digit c
    || c == b'.'
    || c == b'_'
    || c == b':'
    || c == b'-'

-- /^[A-Za-z0-9._:-]{1,128}$/
abbrev pub is_bundle_id : String → Bool
is_bundle_id id = all is_identifier_code (codes id) && between 1 128 (length (codes id))

-- /^[a-f0-9]{64}$/
abbrev pub is_digest : String → Bool
is_digest value =
    all (λ c. between b'a' b'f' c || is_digit c) (codes value) && (length (codes value) == 64)

-- /^[a-z][a-z0-9-]{2,127}$/
abbrev pub is_rule_id_of : List ℕ → Bool
is_rule_id_of [] = false
is_rule_id_of (c ∷ cs) =
    is_lower c && all (λ d. is_lower d || is_digit d || d == b'-') cs && between 2 127 (length cs)

-- `typeof value === "object"`, and no array.
abbrev pub is_object : Value → Bool
is_object null = true
is_object (object _) = true
is_object _ = false

abbrev pub has_base : Option Layers → Bool
has_base none = false
has_base (some layers) = is_object layers.base

-- One member of the name "digest", whose value is printed as a digest. A private layer that is truthy
-- but no object has no such key.
abbrev pub is_digest_member : List (String × Value) → Bool
unfolding printed
is_digest_member ((name, value) ∷ []) = str_eq name "digest" && is_digest (printed value)
is_digest_member _ = false

abbrev pub is_digest_layer : Value → Bool
unfolding printed
is_digest_layer (object ms) = is_digest_member (entries ms)
is_digest_layer _ = false

abbrev pub is_digest_only : Option Layers → Bool
unfolding printed
is_digest_only none = true
is_digest_only (some layers) =
    not (is_truthy layers.private_layer) || is_digest_layer layers.private_layer

abbrev pub is_listed : FraudAction → Bool
is_listed (unlisted value) = false
is_listed _ = true

abbrev pub is_integrity_only : List String → Bool
is_integrity_only [] = false
is_integrity_only (i ∷ inputs) = all (λ input. str_eq input "integrity_verdict") (i ∷ inputs)

abbrev pub require : Bool → BundleError → Outcome BundleError (Unit {0})
require true e = ok tt
require false e = throw e

abbrev pub is_well_formed : FraudRule → Bool
is_well_formed r = is_rule_id_of (codes r.id) && is_some r.inputs && is_listed r.action

unfoldable pub assert_rules : List FraudRule → Outcome BundleError (Unit {0})
assert_rules [] = ok tt
assert_rules (r ∷ rules) = do
  require (is_well_formed r) (fraud_bundle_rule_invalid r.id)
  require (not (is_integrity_only (or_else r.inputs []))) (integrity_only_rule_forbidden r.id)
  assert_rules rules

abbrev pub has_rules : Option (List FraudRule) → Bool
has_rules (some (r ∷ rules)) = true
has_rules _ = false

unfoldable pub assert_fraud_bundle : FraudBundle → Outcome BundleError (Unit {0})
unfolding units assert_rules printed
assert_fraud_bundle bundle = do
  require (is_bundle_id bundle.id) fraud_bundle_id_invalid
  require (between 1 128 (length (units (codes bundle.version)))) fraud_bundle_version_invalid
  require (has_base bundle.layers) fraud_bundle_layers_invalid
  require (has_rules bundle.rules) fraud_bundle_rules_invalid
  require (is_digest_only bundle.layers) fraud_bundle_private_layer_must_be_digest_only
  assert_rules (or_else bundle.rules [])

-- The digest is a function of what is hashed.
unfoldable pub fraud_bundle_hash : (FraudBundle → String) → FraudBundle → Outcome BundleError String
fraud_bundle_hash digest bundle = do assert_fraud_bundle bundle; ok (digest bundle)
