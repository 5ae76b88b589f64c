-- ===== src/Attribution/FraudDecisions/Installs.antt =====
-- `installFraud` of `evaluate`: the rules over each accepted install and its click.
use open_mmp.Common.{
  Bool, not, ◌&&◌, List, [], ◌∷◌, Option, none, some, String, str_eq, opt_eq, filter, truthy,
  or_else, if◌then◌else◌, Outcome, ok, throw, ◌>>=◌,
}
use open_mmp.Attribution.Types.{ClickInjectionPolicy, CandidateAttempt, Digests}
use open_mmp.Attribution.Candidates.{is_click}
use open_mmp.Attribution.Anchors.{is_install}
use open_mmp.Attribution.Install.{is_invalid, click_status}
use open_mmp.Attribution.Outputs.{joined}
use open_mmp.Fraud.Value.{Number, whole}
use open_mmp.Fraud.Bundle.{FraudBundle, fraud_number_parameter}
use open_mmp.Fraud.Install.{FraudRuleHit, evaluate_install_rules}
use open_mmp.Attribution.FraudDecisions.{
  FraudError, no_base, FraudDigests, BoundFraudBundle, FraudDecision, by_rule, of_rule, as_rule,
  quarantine_deadline, bound_fraud_bundle, flat_map_each,
}

-- An accepted click of the install's scope and click id, with a time that can be used.
abbrev pub is_timed_click_of : CandidateAttempt → CandidateAttempt → Bool
is_timed_click_of a c =
    str_eq c.server.tenant_id a.server.tenant_id
    && str_eq c.server.app_id a.server.app_id
    && is_click c
    && opt_eq c.event.payload.click_id a.event.payload.click_id
    && not (is_invalid (click_status c.event.payload))
    && truthy c.event.payload.redirector_click_at

abbrev pub matching_clicks : List CandidateAttempt → CandidateAttempt → List CandidateAttempt
matching_clicks accepted a =
    if truthy a.event.payload.click_id then filter (is_timed_click_of a) accepted else []

abbrev pub sole_click : List CandidateAttempt → Option CandidateAttempt
sole_click (c ∷ []) = some c
sole_click _ = none

abbrev pub click_time : Option CandidateAttempt → Option String
click_time none = none
click_time (some c) = c.event.payload.redirector_click_at

abbrev pub click_record : Option CandidateAttempt → String
click_record none = "no-redirector-click"
click_record (some c) = c.event.record_id

abbrev pub bundle_policy : Digests → FraudBundle → Number → ClickInjectionPolicy
bundle_policy dg b seconds =
    let policy_version = joined b.id (b.version ∷ []) in
    record {
      threshold_seconds = seconds;
      authority = "server";
      policy_version = policy_version;
      policy_digest = dg.click_policy_digest seconds "server" policy_version;
    }

abbrev pub required_parameter : Option Number → Outcome FraudError Number
required_parameter none = throw no_base
required_parameter (some n) = ok n

abbrev pub decision_suffix : String → String
decision_suffix rule_id =
    if str_eq rule_id "ctit-lower-bound-v1" then "click-injection" else rule_id

module _ (dg : Digests) (fd : FraudDigests) where
  abbrev pub hit_decision :
      CandidateAttempt
      → Option CandidateAttempt
      → BoundFraudBundle
      → FraudRuleHit
      → Outcome FraudError (List FraudDecision)
  hit_decision a click bound hit = do
    deadline ← quarantine_deadline hit.action a.event.received_at bound.definition
    ok (
        record {
          fraud_decision_id = joined "fraud" (a.event.record_id ∷ decision_suffix hit.rule_id ∷ []);
          subject_ref = a.event.record_id;
          decision = hit.decision;
          action = hit.action;
          reason_code = by_rule hit.reason_code;
          evidence_type = of_rule hit.evidence_type;
          evidence_digest =
              fd.of_evidence (hit.rule_id ∷ click_record click ∷ a.event.record_id ∷ []);
          bundle = bound;
          rule_id = hit.rule_id;
          evaluated_at = a.event.received_at;
          resolution_deadline_at = deadline;
        }
        ∷ [])

  abbrev pub install_of :
      List CandidateAttempt
      → CandidateAttempt
      → Option BoundFraudBundle
      → Outcome FraudError (List FraudDecision)
  install_of accepted a none = ok []
  install_of accepted a (some bound) = do
    let click = sole_click (matching_clicks accepted a)
    seconds ←
        required_parameter
          (fraud_number_parameter bound.definition "ctit_lower_bound_seconds" (whole 10))
    hits ← as_rule (
        evaluate_install_rules dg (record {
          install_begin_at_server = a.event.payload.install_begin_at_server;
          referrer_click_at_server = a.event.payload.referrer_click_at_server;
          referrer_click_at_server_status = a.event.payload.referrer_click_at_server_status;
          redirector_click_at = click_time click;
          policy =
              or_else a.server.click_injection_policy (bundle_policy dg bound.definition seconds);
          bundle = some bound.definition;
        }))
    flat_map_each fd (hit_decision a click bound) hits

  unfoldable pub install_fraud : List CandidateAttempt → Outcome FraudError (List FraudDecision)
  unfolding flat_map_each
  install_fraud accepted =
      flat_map_each fd
        (λ a.
          if is_install a
          then (do bound ← bound_fraud_bundle fd a.server; install_of accepted a bound)
          else ok [])
        accepted
