-- ===== src/Fraud/Assert/Laws.antt =====
-- Which bundles `assertFraudBundle` lets pass.
use open_mmp.Common.{
  ◌≡◌, ◌≢◌, ◌↔◌, sym, ◌⊎◌, inl, inr, Option, none, some, ◌||◌, Option-cases, Outcome, ◌>>◌, eq_iff,
  is_some, or_else, refl, Bool, true, false, not, List, [], ◌∷◌, String, str_eq, any, all, All, ok,
  arith, length,
}
use open_mmp.Instant.{codes}
use open_mmp.Attribution.Order.{units}
use open_mmp.Fraud.Value.{Value, null, object, Members, no_members, member, is_truthy, printed}
use open_mmp.Fraud.Bundle.{
  FraudAction, allow, flag, exclude, quarantine, unlisted, Layers, FraudRule, FraudBundle,
}
use open_mmp.Fraud.Assert.{
  BundleError, fraud_bundle_id_invalid, fraud_bundle_version_invalid, fraud_bundle_rules_invalid,
  fraud_bundle_private_layer_must_be_digest_only, fraud_bundle_rule_invalid,
  integrity_only_rule_forbidden, between, is_bundle_id, fraud_bundle_layers_invalid, has_rules,
  has_base, is_object, is_digest, is_digest_layer, is_digest_only, is_listed, is_well_formed,
  is_rule_id_of, is_integrity_only, require, assert_rules, assert_fraud_bundle,
}

-- A rule with a well formed identifier and a listed action, whose inputs are an array that is empty or
-- has some other input than the verdict on the integrity of the device.
abbrev pub IsAllowed : FraudRule → Type 0
IsAllowed r =
    (is_rule_id_of (codes r.id) ≡ true)
    × ((value : String) → r.action ≢ unlisted value)
    × ((inputs : List String) × (r.inputs ≡ some inputs)
        × (inputs ≢ [] → any (λ input. not (str_eq input "integrity_verdict")) inputs ≡ true))

-- A base layer is an object or null.
abbrev pub IsBase : Value → Type 0
IsBase v = (v ≡ null) ⊎ ((ms : Members) × (v ≡ object ms))

-- A private layer that is not truthy, or an object with a digest and nothing else.
abbrev pub IsPrivate : Value → Type 0
unfolding printed
IsPrivate v =
    (is_truthy v ≡ false)
    ⊎ ((digest : Value) × (v ≡ object (member "digest" digest no_members))
        × (is_digest (printed digest) ≡ true))

all-any-not {ℓ} :
    {A : Type ℓ} (p : A → Bool) (xs : List A)
    → (all p xs ≡ false) ↔ (any (λ x. not (p x)) xs ≡ true)
all-any-not p [] = (λ h. cc, λ h. cc)
all-any-not p (x ∷ xs) =
    let i = all-any-not p xs in (λ h. ground (arith, i), λ h. ground (arith, i))

is_integrity_only_iff :
    (inputs : List String)
    → (is_integrity_only inputs ≡ false)
      ↔ (inputs ≢ [] → any (λ input. not (str_eq input "integrity_verdict")) inputs ≡ true)
is_integrity_only_iff [] = (λ h n. elim (n refl) [ ], λ h. refl)
is_integrity_only_iff (i ∷ inputs) =
    let (to, from) = all-any-not (λ input. str_eq input "integrity_verdict") (i ∷ inputs) in
    (λ h n. to h, λ h. from (h (λ e. cc e)))

has_rules_iff :
    (rules : Option (List FraudRule))
    → (has_rules rules ≡ true) ↔ ((rs : List FraudRule) × (rules ≡ some rs) × (rs ≢ []))
has_rules_iff none = (λ h. cc, λ (rs, e, _). cc e)
has_rules_iff (some []) = (λ h. cc, λ (rs, e, n). elim (n (cc e)) [ ])
has_rules_iff (some (r ∷ rules)) = (λ h. (r ∷ rules, refl, λ e. cc e), λ h. refl)

is_object_iff : (v : Value) → (is_object v ≡ true) ↔ IsBase v
is_object_iff null = (λ h. inl refl, λ h. refl)
is_object_iff (object ms) = (λ h. inr (ms, refl), λ h. refl)
is_object_iff v = (λ h. cc, λ h. elim h [ inl e ↦ cc e | inr (ms, e) ↦ cc e ])

has_base_iff :
    (layers : Option Layers)
    → (has_base layers ≡ true) ↔ ((l : Layers) × (layers ≡ some l) × IsBase l.base)
has_base_iff none = (λ h. cc, λ (l, e, _). cc e)
has_base_iff (some l) =
    let object = is_object_iff l.base in
    (λ h. (l, refl, object.0 h), λ (k, e, b). let q : l ≡ k = cc e in object.1 (rw (sym q) at b))

abbrev DigestMembers : Members → Type 0
unfolding printed
DigestMembers ms =
    (digest : Value) × (object ms ≡ object (member "digest" digest no_members))
    × (is_digest (printed digest) ≡ true)

is_digest_layer_iff : (ms : Members) → (is_digest_layer (object ms) ≡ true) ↔ DigestMembers ms
unfolding printed
is_digest_layer_iff no_members = (λ h. cc, λ (d, e, _). cc e)
is_digest_layer_iff (member name v no_members) = (
  λ h.
      let n : name ≡ "digest" = (eq_iff name "digest").0 (ground (arith, h)) in
      (v, cc n, ground (arith, h)),
  λ (d, e, t).
      let n : name ≡ "digest" = cc e in
      let w : v ≡ d = cc e in
      let q = (eq_iff name "digest").1 n in ground (arith, q, rw (sym w) at t),
)
is_digest_layer_iff (member name v (member other w rest)) = (λ h. cc, λ (d, e, _). cc e)

is_listed_iff :
    (action : FraudAction)
    → (is_listed action ≡ true) ↔ ((value : String) → action ≢ unlisted value)
is_listed_iff (unlisted value) = (λ h. cc, λ h. elim (h value refl) [ ])
is_listed_iff allow = (λ _ v e. cc e, λ _. refl)
is_listed_iff flag = (λ _ v e. cc e, λ _. refl)
is_listed_iff exclude = (λ _ v e. cc e, λ _. refl)
is_listed_iff quarantine = (λ _ v e. cc e, λ _. refl)

falsy_or_digest_iff : (v : Value) → ((not (is_truthy v) || is_digest_layer v) ≡ true) ↔ IsPrivate v
unfolding printed
falsy_or_digest_iff (object ms) =
    let layer = is_digest_layer_iff ms in
    (λ h. inr (layer.0 h), λ h. elim h [ inl e ↦ cc e | inr t ↦ layer.1 t ])
falsy_or_digest_iff v =
    (λ h. inl (ground (arith, h)), λ h. elim h [ inl e ↦ ground (arith, e) | inr (d, e, t) ↦ cc e ])

is_well_formed_iff :
    (r : FraudRule)
    → ((is_well_formed r ≡ true) × (is_integrity_only (or_else r.inputs []) ≡ false)) ↔ IsAllowed r
is_well_formed_iff r =
    let listed = is_listed_iff r.action in
    elim (Option-cases r.inputs) [
      | inl n ↦ (
        λ (h, _). let given : is_some r.inputs ≡ true = ground (arith, h) in cc (rw n at given),
        λ (_, _, (inputs, e, _)). cc (n, e),
      )
      | inr (inputs, e) ↦
          let own = is_integrity_only_iff inputs in
          (
            λ (h, t).
                (ground (arith, h), listed.0 (ground (arith, h)), (inputs, e, own.0 (rw e at t))),
            λ (h, l, (others, o, t)).
                let q : inputs ≡ others = cc (e, o) in
                let given : is_some r.inputs ≡ true = rw e refl in
                let chosen = listed.1 l in
                (ground (arith, h, given, chosen), rw e (own.1 (rw (sym q) at t))),
          )
    ]

require_then_iff :
    (b : Bool) (e : BundleError) (rest : Outcome BundleError (Unit {0}))
    → ((require b e >> rest) ≡ ok tt) ↔ ((b ≡ true) × (rest ≡ ok tt))
require_then_iff true e rest = (λ h. (refl, h), λ (_, h). h)
require_then_iff false e rest = (λ h. cc h, λ (h, _). cc h)

assert_rules_iff : (rules : List FraudRule) → (assert_rules rules ≡ ok tt) ↔ All IsAllowed rules
unfolding assert_rules
assert_rules_iff [] = (λ _. tt, λ _. refl)
assert_rules_iff (r ∷ rules) =
    let named = require_then_iff (is_well_formed r) (fraud_bundle_rule_invalid r.id) _ in
    let mixed =
      require_then_iff (not (is_integrity_only (or_else r.inputs [])))
        (integrity_only_rule_forbidden r.id) (assert_rules rules) in
    let own = is_well_formed_iff r in
    let rest = assert_rules_iff rules in
    (
      λ h.
          let (a, t) = named.0 h in
          let (b, c) = mixed.0 t in (own.0 (a, ground (arith, b)), rest.0 c),
      λ (a, c). let (w, t) = own.1 a in named.1 (w, mixed.1 (ground (arith, t), rest.1 c)),
    )

-- A bundle passes exactly if its identifier and the length of its version are in form, its layers are there
-- with a base that is an object or null and a private layer that is not truthy or has a digest and
-- nothing else, and its rules are an array that is not empty, in which each rule has an identifier in
-- form, a listed action and an array of inputs that does not rest on the verdict on the integrity of
-- the device alone.
pub assert_fraud_bundle_iff :
    (bundle : FraudBundle)
    → (assert_fraud_bundle bundle ≡ ok tt) ↔ (
        (is_bundle_id bundle.id ≡ true)
        × (between 1 128 (length (units (codes bundle.version))) ≡ true)
        × ((layers : Layers) × (bundle.layers ≡ some layers)
            × IsBase layers.base
            × IsPrivate layers.private_layer)
        × ((rules : List FraudRule) × (bundle.rules ≡ some rules)
            × (rules ≢ [])
            × All IsAllowed rules))
unfolding assert_fraud_bundle
assert_fraud_bundle_iff bundle =
    let i = require_then_iff (is_bundle_id bundle.id) fraud_bundle_id_invalid _ in
    let j =
      require_then_iff (between 1 128 (length (units (codes bundle.version))))
        fraud_bundle_version_invalid _ in
    let k = require_then_iff (has_base bundle.layers) fraud_bundle_layers_invalid _ in
    let l = require_then_iff (has_rules bundle.rules) fraud_bundle_rules_invalid _ in
    let m =
      require_then_iff (is_digest_only bundle.layers) fraud_bundle_private_layer_must_be_digest_only
        (assert_rules (or_else bundle.rules [])) in
    let layered = has_base_iff bundle.layers in
    let ruled = has_rules_iff bundle.rules in
    (
      λ h.
          let (p, h1) = i.0 h in
          let (q, h2) = j.0 h1 in
          let (b, h3) = k.0 h2 in
          let (r, h4) = l.0 h3 in
          let (d, h5) = m.0 h4 in
          let (layers, e, base) = layered.0 b in
          let (rules, f, n) = ruled.0 r in
          (
            p,
            q,
            (layers, e, base, (falsy_or_digest_iff layers.private_layer).0 (rw e at d)),
            (rules, f, n, (assert_rules_iff rules).0 (rw f at h5)),
          ),
      λ (p, q, (layers, e, base, secret), (rules, f, n, allowed)).
          let only : is_digest_only bundle.layers ≡ true =
            rw e ((falsy_or_digest_iff layers.private_layer).1 secret) in
          let ran : assert_rules (or_else bundle.rules []) ≡ ok tt =
            rw f ((assert_rules_iff rules).1 allowed) in
          i.1 (
            p,
            j.1 (
              q,
              k.1 (layered.1 (layers, e, base), l.1 (ruled.1 (rules, f, n), m.1 (only, ran))),
            ),
          ),
    )
