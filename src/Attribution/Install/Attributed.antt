-- ===== src/Attribution/Install/Attributed.antt =====
-- The attribution of an install to a click: exactly when, and what it says.
use mathlib.Core.Path.{subst}
use open_mmp.Common.{
  ◌≡◌, ◌↔◌, inl, inr, refl, sym, ap, ◌∙◌, Bool, true, false, ◌&&◌, List, [], ◌∷◌, none, str_eq,
  eq_iff, opt_eq, opt_eq_iff, ok, >>=-eq-ok, arith, Bool-cases, All, All-filter_test, any,
}
use open_mmp.Attribution.Types.{CandidateAttempt, Digests}
use open_mmp.Attribution.Candidates.{CandidateProvider, fixture_provider, is_click}
use open_mmp.Attribution.Results.{
  non_organic, AttributionReason, AttributionResult, Decisions, LifecycleIndex, evidence, Finality,
}
use open_mmp.Attribution.Verdicts.{Verdict}
use open_mmp.Attribution.Install.{
  counted_clicks, install_verdict, result, recorded, recalculated, make_attribution, is_lost,
  evidence_of,
}
use open_mmp.Attribution.Install.Kept.{IsCounted, filter_counted-IsCounted}
use open_mmp.Attribution.Install.Timely.{matched, IsTimely}
use open_mmp.Attribution.Install.Laws.{IsOpen, install_verdict_sound, install_verdict_complete}

-- What `recalculated` leaves as it is.
recalculated-keeps :
    (r : AttributionResult)
    → ((recalculated r).reason_code ≡ r.reason_code)
      × ((recalculated r).status ≡ r.status)
      × ((recalculated r).evidence_refs ≡ r.evidence_refs)
recalculated-keeps r = ground arith

result-keeps :
    (a : CandidateAttempt) (lifecycle : LifecycleIndex) (v : Verdict)
    → ((result a lifecycle v).reason_code ≡ v.reason_code)
      × ((result a lifecycle v).status ≡ v.status)
      × ((result a lifecycle v).evidence_refs ≡ evidence_of a lifecycle v.clicked)
result-keeps a lifecycle v = recalculated-keeps (recorded a lifecycle v)

has_lost : AttributionResult → Bool
has_lost r = any (λ e. is_lost e.lifecycle_status) r.evidence_refs

recalculated-has_lost :
    (r : AttributionResult)
    → r.finality ≡ Finality.final
    → r.supersedes_attribution_id ≡ none
    → (((recalculated r).finality ≡ Finality.superseded) ↔ (has_lost (recalculated r) ≡ true))
      × (((recalculated r).supersedes_attribution_id ≡ none) ↔ (has_lost (recalculated r) ≡ false))
unfolding has_lost
recalculated-has_lost r f n = elim (Bool-cases (has_lost r)) [
  | inl t ↦ ground arith
  | inr t ↦ ground arith
]

result-has_lost :
    (a : CandidateAttempt) (lifecycle : LifecycleIndex) (v : Verdict)
    → (((result a lifecycle v).finality ≡ Finality.superseded)
        ↔ (any (λ e. is_lost e.lifecycle_status) (result a lifecycle v).evidence_refs ≡ true))
      × (((result a lifecycle v).supersedes_attribution_id ≡ none)
          ↔ (any (λ e. is_lost e.lifecycle_status) (result a lifecycle v).evidence_refs ≡ false))
unfolding has_lost
result-has_lost a lifecycle v = recalculated-has_lost (recorded a lifecycle v) refl refl

module _ (dg : Digests) (candidates : CandidateProvider) (decisions : Decisions)
    (lifecycle : LifecycleIndex) (a : CandidateAttempt) (r : AttributionResult)
    (made : make_attribution dg a candidates decisions lifecycle ≡ ok r) where
  made-inv :
      (v : Verdict) × (install_verdict dg candidates decisions a ≡ ok v)
      × (result a lifecycle v ≡ r)
  unfolding make_attribution
  made-inv =
      let (v, found, k) = >>=-eq-ok (install_verdict dg candidates decisions a) _ made in
      (v, found, cc k)

  -- An install is attributed to a click exactly if nothing else settles it, one click of its scope
  -- with its click id counts and no other does, and that click is no prefetch and precedes the
  -- install by less than seven days, by the two authoritative times.
  pub make_attribution-valid_iff : (r.reason_code ≡ AttributionReason.valid_install_referrer) ↔ (
      (click : CandidateAttempt) × IsOpen dg candidates decisions a
      × (counted_clicks dg candidates decisions a ≡ ok (click ∷ []))
      × IsTimely a click)
  make_attribution-valid_iff =
      let (v, found, same) = made-inv in
      let reason = ap (λ (x : AttributionResult). x.reason_code) same in
      (
        λ e.
            let (click, o, only, _, timely) =
              install_verdict_sound dg candidates decisions a v found
                (sym (result-keeps a lifecycle v).0 ∙ reason ∙ e) in
            (click, o, only, timely),
        λ (click, o, only, timely).
            let again = install_verdict_complete dg candidates decisions a click o only timely in
            let as_matched : v ≡ matched click = cc in
            sym reason
            ∙ (result-keeps a lifecycle v).0
            ∙ ap (λ (x : Verdict). x.reason_code) as_matched,
      )

  -- The evidence of an attribution is superseded exactly if some of it is redacted or purged; it
  -- then names the attribution that it supersedes, and otherwise none.
  pub make_attribution-superseded_iff :
      ((r.finality ≡ Finality.superseded)
        ↔ (any (λ e. is_lost e.lifecycle_status) r.evidence_refs ≡ true))
      × ((r.supersedes_attribution_id ≡ none)
          ↔ (any (λ e. is_lost e.lifecycle_status) r.evidence_refs ≡ false))
  make_attribution-superseded_iff =
      let (v, _, same) = made-inv in
      subst
        (λ (x : AttributionResult).
          ((x.finality ≡ Finality.superseded)
            ↔ (any (λ e. is_lost e.lifecycle_status) x.evidence_refs ≡ true))
          × ((x.supersedes_attribution_id ≡ none)
              ↔ (any (λ e. is_lost e.lifecycle_status) x.evidence_refs ≡ false)))
        same (result-has_lost a lifecycle v)

-- What a click that an install is attributed to has in common with it.
pub record SharesScope (ordered : List CandidateAttempt) (a click : CandidateAttempt) : Type 0 where
  pub tenant : click.server.tenant_id ≡ a.server.tenant_id
  pub app : click.server.app_id ≡ a.server.app_id
  pub event : click.event.event_name ≡ "click"
  pub click_id : click.event.payload.click_id ≡ a.event.payload.click_id

shares_scope :
    (ordered : List CandidateAttempt) (a c : CandidateAttempt)
    → (str_eq c.server.tenant_id a.server.tenant_id
        && str_eq c.server.app_id a.server.app_id
        && is_click c
        && opt_eq c.event.payload.click_id a.event.payload.click_id)
      ≡ true
    → SharesScope ordered a c
shares_scope ordered a c t = record {
  tenant = ground (arith, eq_iff c.server.tenant_id a.server.tenant_id);
  app = ground (arith, eq_iff c.server.app_id a.server.app_id);
  event = ground (arith, eq_iff c.event.event_name "click");
  click_id = ground (arith, opt_eq_iff c.event.payload.click_id a.event.payload.click_id);
}

-- Over the attempts of an input, an install attributed to a click is non-organic; its evidence is
-- the click and then the install; and the click is a click event of the same tenant and app with
-- the same click id, whose own decision is accepted and unique.
pub make_attribution-click :
    (dg : Digests) (ordered : List CandidateAttempt) (decisions : Decisions)
    (lifecycle : LifecycleIndex) (a : CandidateAttempt) (r : AttributionResult)
    → make_attribution dg a (fixture_provider ordered) decisions lifecycle ≡ ok r
    → r.reason_code ≡ AttributionReason.valid_install_referrer
    → (click : CandidateAttempt) × SharesScope ordered a click
      × IsCounted dg decisions click
      × (r.status ≡ non_organic)
      × (r.evidence_refs
          ≡ evidence a lifecycle click.event.record_id
            ∷ evidence a lifecycle a.event.record_id
            ∷ [])
make_attribution-click dg ordered decisions lifecycle a r made e =
    let c = fixture_provider ordered in
    let (v, found, same) = made-inv dg c decisions lifecycle a r made in
    let reason = ap (λ (x : AttributionResult). x.reason_code) same in
    let (click, _, only, is_match, _) =
      install_verdict_sound dg c decisions a v found
        (sym (result-keeps a lifecycle v).0 ∙ reason ∙ e) in
    let all_share : All (SharesScope ordered a) _ =
      All-filter_test (SharesScope ordered a) _ ordered (λ x t. shares_scope ordered a x t) in
    let (kept, _) =
      filter_counted-IsCounted dg decisions (SharesScope ordered a) (λ x. true) _ (click ∷ []) only
        all_share in
    (
      click,
      kept.0,
      kept.2,
      sym (ap (λ (x : AttributionResult). x.status) same)
          ∙ (result-keeps a lifecycle v).1
          ∙ ap (λ (x : Verdict). x.status) is_match,
      sym (ap (λ (x : AttributionResult). x.evidence_refs) same)
          ∙ (result-keeps a lifecycle v).2
          ∙ ap (λ (x : Verdict). evidence_of a lifecycle x.clicked) is_match,
    )
