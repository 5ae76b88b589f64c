-- ===== src/Attribution/Outputs/Built.antt =====
-- What an evaluation that gives a ledger has computed on the way.
use open_mmp.Common.{◌≡◌, sym, ap, List, [], ◌++◌, map, filter, Outcome, ok, throw, >>=-eq-ok}
use open_mmp.Attribution.Types.{CandidateAttempt, Digests}
use open_mmp.Attribution.Errors.{Error}
use open_mmp.Attribution.Candidates.{CandidateProvider}
use open_mmp.Attribution.Decide.{Decision}
use open_mmp.Attribution.Results.{Decisions, AttributionResult}
use open_mmp.Attribution.Lifecycle.{privacy_index}
use open_mmp.Attribution.Anchors.{assert_installation_anchors}
use open_mmp.Attribution.Inputs.{
  assert_import_provider_contexts, assert_revenue_anchor_sources, assert_scoped_references,
}
use open_mmp.Attribution.Order.{sort_candidate_attempts}
use open_mmp.Attribution.Evaluate.{decide_each, map_of, accepted_unique}
use open_mmp.Attribution.Outputs.{RawRecord}
use open_mmp.Attribution.Outputs.Ledger.{
  as_input, as_evaluator, map_each, OutputDigests, Input, Ledger, is_conflict_reason, with_decision,
  raw_records_of, deliveries_of, logical_events_of, corrections_of, tombstones_of, rejections_of,
  initial_attributions, ledger_of, evaluate,
}

as_input-ok {ℓ} : {A : Type ℓ} (o : Outcome _ A) (a : A) → as_input o ≡ ok a → o ≡ ok a
as_input-ok (ok b) a h = cc h
as_input-ok (throw e) a h = cc h

as_evaluator-ok {ℓ} : {A : Type ℓ} (o : Outcome Error A) (a : A) → as_evaluator o ≡ ok a → o ≡ ok a
as_evaluator-ok (ok b) a h = cc h
as_evaluator-ok (throw e) a h = cc h

module _ (dg : Digests) (od : OutputDigests) (i : Input)
    (factory : List CandidateAttempt → CandidateProvider) (ledger : Ledger) where
  abbrev pub sorted : List CandidateAttempt
  sorted = sort_candidate_attempts dg i.all_attempts

  -- The decisions, the accepted attempts, the attempts with their decisions, the raw records and the
  -- attributions; and that the ledger is made of them.
  pub record Built : Type 0 where
    pub listed : Decisions
    pub accepted : List CandidateAttempt
    pub decided : List (CandidateAttempt × Decision)
    pub rows : List RawRecord
    pub results : List AttributionResult
    pub listed_eq : decide_each dg (factory sorted) sorted ≡ ok listed
    pub accepted_eq : accepted_unique dg (map_of listed []) sorted ≡ ok accepted
    pub decided_eq : map_each (with_decision dg (map_of listed [])) sorted ≡ ok decided
    pub rows_eq :
        raw_records_of dg od
          (privacy_index i.privacy_requests i.retention_expirations)
          (accepted ++ map (λ p. p.0) (filter (λ p. is_conflict_reason p.1.reason_code) decided))
        ≡ ok rows
    pub ledger_eq : ledger ≡ record {
      raw_records = rows;
      deliveries = deliveries_of dg od decided;
      logical_events =
          logical_events_of dg od
            (privacy_index i.privacy_requests i.retention_expirations)
            accepted;
      corrections = corrections_of dg od i accepted;
      privacy_tombstones = tombstones_of dg od i;
      attributions = results;
      rejections = rejections_of dg od listed;
    }

  pub evaluate-Built : evaluate dg od i factory ≡ ok ledger → Built
  unfolding evaluate ledger_of
  evaluate-Built h =
      let (u, hu, h1) = >>=-eq-ok (as_input (assert_import_provider_contexts sorted)) _ h in
      let (v, hv, h2) = >>=-eq-ok (as_input (assert_revenue_anchor_sources sorted)) _ h1 in
      let (w, hw, h3) =
        >>=-eq-ok
          (as_input (
            assert_scoped_references sorted i.privacy_requests i.correction_inputs
              i.retention_expirations))
          _ h2 in
      let (listed, hl, h4) =
        >>=-eq-ok (as_evaluator (decide_each dg (factory sorted) sorted)) _ h3 in
      let h5 = as_evaluator-ok (ledger_of dg od i (factory sorted) sorted listed) ledger h4 in
      let decisions = map_of listed [] in
      let (x, hx, h6) = >>=-eq-ok (assert_installation_anchors dg sorted decisions) _ h5 in
      let (accepted, ha, h7) = >>=-eq-ok (accepted_unique dg decisions sorted) _ h6 in
      let (decided, hd, h8) = >>=-eq-ok (map_each (with_decision dg decisions) sorted) _ h7 in
      let lifecycle = privacy_index i.privacy_requests i.retention_expirations in
      let conflicts = map (λ p. p.0) (filter (λ p. is_conflict_reason p.1.reason_code) decided) in
      let (rows, hr, h9) =
        >>=-eq-ok (raw_records_of dg od lifecycle (accepted ++ conflicts)) _ h8 in
      let (results, hs, h10) =
        >>=-eq-ok (initial_attributions dg od (factory sorted) decisions lifecycle accepted) _ h9 in
      record {
        listed = listed;
        accepted = accepted;
        decided = decided;
        rows = rows;
        results = results;
        listed_eq = as_evaluator-ok _ listed hl;
        accepted_eq = ha;
        decided_eq = hd;
        rows_eq = hr;
        ledger_eq = sym (ap (λ o. elim o [ ok l ↦ l | throw e ↦ ledger ]) h10);
      }
