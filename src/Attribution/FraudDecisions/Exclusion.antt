-- ===== src/Attribution/FraudDecisions/Exclusion.antt =====
-- What `evaluate` does with the decisions on fraud: it excludes clicks, and an attribution of an install
-- to an excluded click is superseded.
use Prim.Native.String
use open_mmp.Common.{
  Bool, true, false, ◌&&◌, List, [], ◌∷◌, ◌++◌, map, Option, none, some, String, str_eq, opt_eq,
  filter, find, lookup, insert, truthy, is_some, if◌then◌else◌, Outcome, ok, ◌>>=◌, optional_eq,
}
use open_mmp.Attribution.Types.{CandidateAttempt, Digests}
use open_mmp.Attribution.Candidates.{is_click}
use open_mmp.Attribution.Anchors.{is_install}
use open_mmp.Attribution.Results.{AttributionResult}
use open_mmp.Attribution.Order.{sort_by_key}
use open_mmp.Fraud.Bundle.{FraudAction, exclude}
use open_mmp.Attribution.FraudDecisions.{FraudError, FraudDigests, FraudDecision, transport_fraud}
use open_mmp.Attribution.FraudDecisions.Installs.{install_fraud}

unfoldable pub fraud_decisions :
    Digests
    → FraudDigests
    → (FraudDecision → String)
    → List CandidateAttempt
    → Outcome FraudError (List FraudDecision)
unfolding sort_by_key transport_fraud install_fraud
fraud_decisions dg fd digest accepted = do
  transport ← transport_fraud fd accepted
  installs ← install_fraud dg fd accepted
  ok (sort_by_key digest (transport ++ installs) (λ d. d.fraud_decision_id ∷ []))

abbrev pub is_exclude : FraudAction → Bool
is_exclude exclude = true
is_exclude _ = false

-- The map from a click id to the decision.
abbrev pub ExcludedClicks : Type 0
ExcludedClicks = List (Option String × FraudDecision)

abbrev pub subject_click : List CandidateAttempt → FraudDecision → Option CandidateAttempt
subject_click accepted d = find (λ a. str_eq a.event.record_id d.subject_ref && is_click a) accepted

abbrev pub exclude_click : Option CandidateAttempt → FraudDecision → ExcludedClicks → ExcludedClicks
exclude_click none d clicks = clicks
exclude_click (some c) d clicks =
    if c.server.fraud_actions_enabled && truthy c.event.payload.click_id
    then insert ⦃e = optional_eq⦄ c.event.payload.click_id d clicks
    else clicks

-- `excludedClickIds`.
unfoldable pub excluded_clicks :
    List CandidateAttempt → List FraudDecision → ExcludedClicks → ExcludedClicks
excluded_clicks accepted [] clicks = clicks
excluded_clicks accepted (d ∷ ds) clicks =
    excluded_clicks accepted ds
      (if is_exclude d.action then exclude_click (subject_click accepted d) d clicks else clicks)

-- An attribution that supersedes another, as fraud takes its click away: status `unattributed`, method
-- and model `none`, reason `fraud_excluded`, finality `final`.
pub record FraudAttribution : Type 0 where
  pub prior : AttributionResult  -- the fields that are kept
  pub attribution_id : String
  pub fraud_decision_ref : String
  pub supersedes_attribution_id : String

abbrev pub fraud_attribution : AttributionResult → FraudDecision → FraudAttribution
fraud_attribution prior d = record {
  prior = prior;
  attribution_id = String.◌++◌ prior.attribution_id ":fraud";
  fraud_decision_ref = d.fraud_decision_id;
  supersedes_attribution_id = prior.attribution_id;
}

abbrev pub superseding : Option AttributionResult → FraudDecision → List FraudAttribution
superseding none d = []
superseding (some prior) d = fraud_attribution prior d ∷ []

module _ (clicks : ExcludedClicks) (initial : List AttributionResult) where
  abbrev pub attributions_of : CandidateAttempt → Option FraudDecision → List FraudAttribution
  attributions_of install none = []
  attributions_of install (some d) =
      superseding (find (λ r. opt_eq r.subject_ref install.event.payload.installation_id) initial) d

  -- `fraudAttributions`.
  unfoldable pub fraud_attributions : List CandidateAttempt → List FraudAttribution
  fraud_attributions [] = []
  fraud_attributions (a ∷ accepted) =
      let rest = fraud_attributions accepted in
      if is_install a
      then attributions_of a (lookup ⦃e = optional_eq⦄ a.event.payload.click_id clicks) ++ rest
      else rest

  -- `excludedInstallationIds`.
  unfoldable pub excluded_installations : List CandidateAttempt → List (Option String)
  excluded_installations accepted =
      map (λ a. a.event.payload.installation_id)
        (filter
          (λ a. is_install a && is_some (lookup ⦃e = optional_eq⦄ a.event.payload.click_id clicks))
          accepted)
