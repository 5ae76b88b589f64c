-- ===== src/Attribution/Tests/Evaluations.antt =====
-- An evaluation of the sample click and install, with an attempt of an unreadable time.
use mathlib.Core.List.{Memᴰ}
use open_mmp.Common.{◌≡◌, ◌↔◌, refl, List, [], ◌∷◌, none, some, true, false, ok, throw, All}
use open_mmp.Instant.{to_instant}
use open_mmp.Attribution.Types.{InstallType, CandidateAttempt}
use open_mmp.Attribution.Errors.{time, timestamp_invalid}
use open_mmp.Attribution.Candidates.{CandidateProvider, fixture_provider}
use open_mmp.Attribution.Consent.{
  consent_not_required, decision_of, consent_decision, invalid_consent_reason,
}
use open_mmp.Attribution.Decide.{
  DuplicateResolution, Decision, decided, duplicate_resolution, rejection_reason, decide,
  decision_key,
}
use open_mmp.Attribution.Results.{Decisions, decision_for, filter_counted}
use open_mmp.Attribution.Evaluate.{
  invalid_decision, decide_or_invalid, decide_each, map_of, decide_all,
}
use open_mmp.Attribution.Evaluate.Laws.{
  DecidedIn, Counts, decide_all-found, decide_all-filter_counted,
}
use open_mmp.Attribution.Anchors.{
  prior_error, anchor_error, check_anchors, assert_installation_anchors,
}
use open_mmp.Attribution.Anchors.Laws.{
  IsAnchored, HasDistinctAnchors, assert_installation_anchors_iff,
}
use open_mmp.Attribution.Tests.Samples.{digests, click, install, attempt, empty}

evaluating : Unit {0}
unfolding decide_all decide_each map_of decide_or_invalid decide duplicate_resolution
    rejection_reason consent_decision invalid_consent_reason time to_instant filter_counted
    assert_installation_anchors check_anchors anchor_error prior_error
evaluating = tt

-- A second install, of another installation that the first one came before.
abbrev reinstall : CandidateAttempt
reinstall = attempt "r6" "install" (record empty {
  installation_id = some "i2";
  prior_installation_id = some "i1";
  install_type = some InstallType.reinstall;
})

abbrev untimely : CandidateAttempt
untimely = record click {
  event = record click.event { record_id = "r7"; event_id = "r7"; occurred_at = "yesterday" };
}

abbrev three : List CandidateAttempt
three = install ∷ reinstall ∷ untimely ∷ []

abbrev provider : CandidateProvider
provider = fixture_provider three

abbrev unique_decision : CandidateAttempt → Decision
unique_decision a =
    decided a provider DuplicateResolution.unique (decision_of a true consent_not_required) none
      false

abbrev index : Decisions
index =
    (decision_key digests install, unique_decision install)
    ∷ (decision_key digests reinstall, unique_decision reinstall)
    ∷ (decision_key digests untimely, invalid_decision untimely)
    ∷ []

decide_all-found_example :
    (d : Decision) × (decision_for digests index untimely ≡ ok d)
    × DecidedIn digests provider three (decision_key digests untimely, d)
unfolding evaluating
decide_all-found_example =
    decide_all-found digests provider three index untimely refl
      (Memᴰ.tail (Memᴰ.tail (Memᴰ.head refl)))

decide_all-filter_counted_example :
    (counted : List CandidateAttempt) × (filter_counted digests index (λ a. true) three
      ≡ ok counted)
    × ((a : CandidateAttempt) → Memᴰ a counted ↔ Counts digests provider index (λ a. true) three a)
unfolding evaluating
decide_all-filter_counted_example =
    decide_all-filter_counted digests provider three index (λ a. true) refl

assert_installation_anchors_iff_example :
    (assert_installation_anchors digests three index ≡ ok tt) ↔ (
      HasDistinctAnchors (install ∷ reinstall ∷ [])
      × All (IsAnchored (install ∷ reinstall ∷ [])) (install ∷ reinstall ∷ []))
unfolding evaluating
assert_installation_anchors_iff_example =
    assert_installation_anchors_iff digests three index (install ∷ reinstall ∷ []) refl

anchor_tests :
    (assert_installation_anchors digests three index ≡ ok tt)
    × (decide digests untimely provider
        ≡ throw (timestamp_invalid "occurred_at" (some "yesterday")))
unfolding evaluating
anchor_tests = (refl, refl)
