-- ===== src/Attribution/FraudDecisions.antt =====
-- The decisions on fraud of `evaluate` in packages/attribution-core/src/evaluator.ts: those on clicks
-- with a signal of their transport and on installs, for an input without aggregates of source days.
pub mod Installs
pub mod Exclusion
pub mod Laws
use Prim.Native.String
use open_mmp.Common.{
  ℕ, suc, ◌+◌, ◌-◌, ◌*◌, ◌/◌, leb, Bool, true, false, not, ◌&&◌, ◌||◌, List, [], ◌∷◌, ◌++◌, map,
  Option, none, some, String, str_eq, opt_eq, filter, truthy, ltb, is_some, or_else, if◌then◌else◌,
  Outcome, ok, throw, ◌>>=◌, ◌>>◌,
}
use open_mmp.Instant.{reach, day_ms}
use open_mmp.Attribution.Types.{TimeStatus, ClickInjectionPolicy, Server, CandidateAttempt, Digests}
use open_mmp.Attribution.Errors.{Error, time}
use open_mmp.Attribution.Candidates.{is_click}
use open_mmp.Attribution.Anchors.{is_install}
use open_mmp.Fraud.Value.{Number, ratio, minus, whole, printed}
use open_mmp.Fraud.Bundle.{
  FraudAction, exclude, quarantine, FraudBundle, RegisteredBundle, default_fraud_bundle,
  fraud_number_parameter, fraud_rule_action,
}
use open_mmp.Fraud.Assert.{
  BundleError, fraud_rule_bundle_identity_mismatch, fraud_rule_bundle_definition_digest_mismatch,
  fraud_rule_bundle_hash_mismatch, fraud_bundle_hash, require,
}
use open_mmp.Fraud.Install.{
  Error as RuleError, RuleDecision, suspected, RuleReason, EvidenceType, FraudRuleHit,
  InstallRuleInput, evaluate_install_rules,
}

-- What is thrown: by a bundle, by a time, by a rule, and by `toISOString` past the range of `Date`.
pub data FraudError : Type 0 where
  by_bundle : BundleError → FraudError
  by_time : Error → FraudError
  by_install_rule : RuleError → FraudError
  out_of_range : FraudError
  no_base : FraudError  -- the TypeError of a parameter of a base layer that is null

-- The digests of a bundle (`sha256Jcs` of it, and of what `fraudBundleHash` hashes) and of evidence.
pub record FraudDigests : Type 0 where
  pub of_definition : FraudBundle → String
  pub of_hashed : FraudBundle → String
  pub of_evidence : List String → String

pub record BoundFraudBundle : Type 0 where
  pub definition : FraudBundle
  pub hash : String

pub data FraudReason : Type 0 where
  bot_prefetch replay_suspected : FraudReason
  by_rule : RuleReason → FraudReason

pub data FraudEvidence : Type 0 where
  link_prefetch_category replay_category : FraudEvidence
  of_rule : EvidenceType → FraudEvidence

pub record FraudDecision : Type 0 where
  pub fraud_decision_id : String
  pub subject_ref : String
  pub decision : RuleDecision
  pub action : FraudAction
  pub reason_code : FraudReason
  pub evidence_type : FraudEvidence
  pub evidence_digest : String
  pub bundle : BoundFraudBundle
  pub rule_id : String
  pub evaluated_at : String  -- and `captured_at` of the evidence
  pub resolution_deadline_at : Option ℕ

abbrev pub as_bundle {ℓ} : {A : Type ℓ} → Outcome BundleError A → Outcome FraudError A
as_bundle (ok a) = ok a
as_bundle (throw e) = throw (by_bundle e)

abbrev pub as_time {ℓ} : {A : Type ℓ} → Outcome Error A → Outcome FraudError A
as_time (ok a) = ok a
as_time (throw e) = throw (by_time e)

abbrev pub as_rule {ℓ} : {A : Type ℓ} → Outcome RuleError A → Outcome FraudError A
as_rule (ok a) = ok a
as_rule (throw e) = throw (by_install_rule e)

-- The instant of the text of a `Date` that is made of `over / (under + 1)` milliseconds from the start of its
-- range: the fraction is cut off towards the epoch.
abbrev pub cut : ℕ → ℕ → ℕ
cut over under =
    if leb (reach * day_ms * suc under) over then over / suc under else (over + under) / suc under

abbrev pub in_range : ℕ → ℕ → Outcome FraudError (Option ℕ)
in_range over under =
    if ltb (2 * reach * day_ms * suc under) over
    then throw out_of_range
    else ok (some (cut over under))

-- The deadline as the instant of its text, some hours after an instant.
abbrev pub hours_after : ℕ → Option Number → Outcome FraudError (Option ℕ)
hours_after t none = throw no_base
hours_after t (some (ratio over under)) = in_range (t * suc under + over * 3600000) under
hours_after t (some (minus over under)) =
    if ltb (t * suc under) (suc over * 3600000)
    then throw out_of_range
    else in_range (t * suc under - suc over * 3600000) under

unfoldable pub quarantine_deadline :
    FraudAction → String → FraudBundle → Outcome FraudError (Option ℕ)
quarantine_deadline quarantine evaluated_at b = do
  t ← as_time (time (some evaluated_at) "evaluated_at")
  hours_after t (fraud_number_parameter b "quarantine_hours" (whole 72))
quarantine_deadline _ evaluated_at b = ok none

module _ (fd : FraudDigests) where
  abbrev pub checked_bundle : RegisteredBundle → Outcome BundleError BoundFraudBundle
  checked_bundle bound = do
    hash ← fraud_bundle_hash fd.of_hashed bound.definition
    require
        (str_eq bound.rule_bundle_id bound.definition.id
          && str_eq bound.rule_bundle_version bound.definition.version)
        fraud_rule_bundle_identity_mismatch
    require (str_eq bound.definition_digest (fd.of_definition bound.definition))
        fraud_rule_bundle_definition_digest_mismatch
    require (str_eq bound.rule_bundle_hash hash) fraud_rule_bundle_hash_mismatch
    ok (record { definition = bound.definition; hash = hash })

  abbrev pub default_bound : BoundFraudBundle
  default_bound = record {
    definition = default_fraud_bundle;
    hash = fd.of_hashed default_fraud_bundle;
  }

  abbrev pub bound_or_default :
      Option RegisteredBundle → Outcome FraudError (Option BoundFraudBundle)
  bound_or_default none = ok (some default_bound)
  bound_or_default (some bound) = do b ← as_bundle (checked_bundle bound); ok (some b)

  unfoldable pub bound_fraud_bundle : Server → Outcome FraudError (Option BoundFraudBundle)
  bound_fraud_bundle server =
      if server.fraud_enabled then bound_or_default server.fraud_rule_bundle else ok none

  abbrev pub transport_rule : FraudReason → String
  transport_rule replay_suspected = "transport-replay-v1"
  transport_rule _ = "transport-bot-prefetch-v1"

  abbrev pub reason_text : FraudReason → String
  reason_text replay_suspected = "replay_suspected"
  reason_text _ = "bot_prefetch"

  abbrev pub transport_evidence : FraudReason → FraudEvidence
  transport_evidence replay_suspected = replay_category
  transport_evidence _ = link_prefetch_category

  abbrev pub transport_decision :
      CandidateAttempt → FraudReason → BoundFraudBundle → Outcome FraudError FraudDecision
  transport_decision a reason bound = do
    let action = fraud_rule_action bound.definition (transport_rule reason) exclude
    deadline ← quarantine_deadline action a.event.received_at bound.definition
    ok (record {
      fraud_decision_id = String.◌++◌ "fraud:" a.event.record_id;
      subject_ref = a.event.record_id;
      decision = suspected;
      action = action;
      reason_code = reason;
      evidence_type = transport_evidence reason;
      evidence_digest = fd.of_evidence (reason_text reason ∷ a.event.record_id ∷ []);
      bundle = bound;
      rule_id = transport_rule reason;
      evaluated_at = a.event.received_at;
      resolution_deadline_at = deadline;
    })

  abbrev pub is_signalled : CandidateAttempt → Bool
  is_signalled a = is_click a && (a.event.payload.bot_prefetch || a.event.payload.replay_suspected)

  abbrev pub transport_of :
      CandidateAttempt → Option BoundFraudBundle → Outcome FraudError (List FraudDecision)
  transport_of a none = ok []
  transport_of a (some bound) = do
    d ←
        transport_decision a
          (if a.event.payload.replay_suspected then replay_suspected else bot_prefetch) bound
    ok (d ∷ [])

  -- `flatMap` of a function that may throw.
  unfoldable pub flat_map_each {ℓ} :
      {A : Type ℓ}
      → (A → Outcome FraudError (List FraudDecision))
      → List A
      → Outcome FraudError (List FraudDecision)
  flat_map_each f [] = ok []
  flat_map_each f (x ∷ xs) = do ys ← f x; zs ← flat_map_each f xs; ok (ys ++ zs)

  unfoldable pub transport_fraud : List CandidateAttempt → Outcome FraudError (List FraudDecision)
  unfolding flat_map_each bound_fraud_bundle quarantine_deadline
  transport_fraud = flat_map_each λ a.
      if is_signalled a
      then (do bound ← bound_fraud_bundle a.server; transport_of a bound)
      else ok []
