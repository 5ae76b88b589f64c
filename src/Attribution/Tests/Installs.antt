-- ===== src/Attribution/Tests/Installs.antt =====
-- The attribution of the sample install to the sample click.
use open_mmp.Common.{◌≡◌, ◌↔◌, refl, List, [], ◌∷◌, none, true, false, ok, some}
use open_mmp.Instant.{to_instant}
use open_mmp.Attribution.Types.{CandidateAttempt}
use open_mmp.Attribution.Errors.{time}
use open_mmp.Attribution.Candidates.{CandidateProvider, fixture_provider}
use open_mmp.Attribution.Consent.{consent_not_required, decision_of}
use open_mmp.Attribution.Decide.{DuplicateResolution, Decision, decided, decision_key}
use open_mmp.Attribution.Results.{
  Lifecycle, AttributionReason, Decisions, LifecycleIndex, AttributionResult, filter_counted,
  non_organic, evidence, evidence_key,
}
use open_mmp.Attribution.Verdicts.{provider_verdict, unmatched}
use open_mmp.Attribution.Install.{
  single_click_verdict, timed_verdict, imported_verdict, install_verdict, counted_clicks, result,
  make_attribution,
}
use open_mmp.Attribution.Install.Kept.{IsCounted}
use open_mmp.Attribution.Install.Timely.{matched, IsTimely}
use open_mmp.Attribution.Install.Laws.{IsOpen}
use open_mmp.Attribution.Install.Attributed.{
  SharesScope, make_attribution-valid_iff, make_attribution-click,
}
use open_mmp.Attribution.Referrer.{
  InstallReferrerClientResponse, TerminalReason, map_install_referrer,
}
use open_mmp.Attribution.Tests.Samples.{digests, click, install}

attributing : Unit {0}
unfolding make_attribution install_verdict imported_verdict provider_verdict filter_counted
    single_click_verdict timed_verdict time to_instant
attributing = tt

abbrev both : List CandidateAttempt
both = click ∷ install ∷ []

abbrev provider : CandidateProvider
provider = fixture_provider both

abbrev click_decided : Decision
click_decided =
    decided click provider DuplicateResolution.unique (decision_of click true consent_not_required)
      none false

abbrev decisions : Decisions
decisions = (decision_key digests click, click_decided) ∷ []

-- The click's evidence is purged.
abbrev purged_click : LifecycleIndex
purged_click = (evidence_key "acme" "game" "r1", Lifecycle.purged) ∷ []

abbrev attributed : LifecycleIndex → AttributionResult
attributed lifecycle = result install lifecycle (matched click)

make_attribution-valid_iff_example :
    (AttributionReason.valid_install_referrer ≡ AttributionReason.valid_install_referrer) ↔ (
      (c : CandidateAttempt) × IsOpen digests provider decisions install
      × (counted_clicks digests provider decisions install ≡ ok (c ∷ []))
      × IsTimely install c)
unfolding attributing
make_attribution-valid_iff_example =
    make_attribution-valid_iff digests provider decisions [] install (attributed []) refl

make_attribution-click_example :
    (c : CandidateAttempt) × SharesScope both install c
    × IsCounted digests decisions c
    × (non_organic ≡ non_organic)
    × ((attributed []).evidence_refs
        ≡ evidence install [] c.event.record_id ∷ evidence install [] "r2" ∷ [])
unfolding attributing
make_attribution-click_example =
    make_attribution-click digests both decisions [] install (attributed []) refl refl

-- A second click with the click id makes it ambiguous; none of them leaves it unknown.
referrer_tests :
    (make_attribution digests install (fixture_provider (click ∷ click ∷ [])) decisions []
      ≡ ok (result install [] (unmatched AttributionReason.ambiguous_click_id)))
    × (make_attribution digests install (fixture_provider []) decisions []
        ≡ ok (result install [] (unmatched AttributionReason.unknown_click_id)))
unfolding attributing
referrer_tests = (refl, refl)

referrer_mapping_tests :
    ((map_install_referrer
        (λ query. some "c1")
        InstallReferrerClientResponse.ok
        (some "cid=c1")).click_id
      ≡ some "c1")
    × ((map_install_referrer
          (λ query. none)
          InstallReferrerClientResponse.ok
          (some "x=1")).terminal_reason
        ≡ some TerminalReason.unknown_click_id)
referrer_mapping_tests = (refl, refl)
