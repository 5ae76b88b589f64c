-- ===== src/Attribution/Install/Laws.antt =====
-- When an install is attributed to a click of the redirector.
use open_mmp.Common.{
  ◌≡◌, ◌≢◌, inl, inr, ap, ◌∙◌, false, [], ◌∷◌, Option, none, some, String, truthy, Outcome, ok,
  >>=-eq-ok, arith, Bool-cases, Option-cases,
}
use open_mmp.Attribution.Types.{
  MetaStatus, Payload, ImportContext, Model, CandidateAttempt, Digests,
}
use open_mmp.Attribution.Errors.{Error}
use open_mmp.Attribution.Candidates.{CandidateProvider}
use open_mmp.Attribution.Results.{
  unattributed, Method, AttributionReason, Decisions, filter_counted,
}
use open_mmp.Attribution.Verdicts.{
  Verdict, verdict, provider_verdict, is_referenced, sole_record, meta_verdict, evidence_verdict,
}
use open_mmp.Attribution.Install.{
  is_imported, imported_verdict, counted_clicks, settled_or_clicks, meta_or_later, install_verdict,
}
use open_mmp.Attribution.Install.Timely.{
  valid, matched, IsTimely, clicks_verdict_sound, single_click_verdict_complete,
}

-- Whatever a provider reports is no match of a click.
provider_verdict-ne :
    (i : ImportContext) (o : Option String) → (provider_verdict i o).reason_code ≢ valid
unfolding provider_verdict
provider_verdict-ne i o = ground arith

meta_verdict-ne :
    (m : Option Model) (s : Option MetaStatus) (o : Outcome Error Verdict) (v : Verdict)
    → meta_verdict m s ≡ some o
    → o ≡ ok v
    → v.reason_code ≢ valid
meta_verdict-ne none none o v h k = cc
meta_verdict-ne (some m) none o v h k = cc
meta_verdict-ne none (some s) o v h k = ground arith
meta_verdict-ne (some m) (some s) o v h k = ground arith

evidence_verdict-ne :
    (p : Payload) (v : Verdict) → evidence_verdict p ≡ some v → v.reason_code ≢ valid
evidence_verdict-ne p v h = ground arith

module _ (dg : Digests) (candidates : CandidateProvider) (decisions : Decisions)
    (a : CandidateAttempt) where
  imported_verdict-ne :
      (o : Option ImportContext) (v : Verdict)
      → imported_verdict dg candidates decisions a o ≡ ok v
      → v.reason_code ≢ valid
  unfolding imported_verdict
  imported_verdict-ne none v h r =
      let same : verdict unattributed Method.imported Model.provider_reported
            AttributionReason.provider_unattributed
          ≡ v =
        cc h in
      absurd cc
  imported_verdict-ne (some i) v h r = elim (Bool-cases (truthy i.provider_click_ref)) [
    | inr t ↦
        let same : provider_verdict i none ≡ v = cc (rw t at h) in
        provider_verdict-ne i none (ap (λ (x : Verdict). x.reason_code) same ∙ r)
    | inl t ↦
        let (xs, _, k) =
          >>=-eq-ok
            (filter_counted dg decisions (is_referenced a i.provider_click_ref)
              candidates.all_candidates)
            _ (rw t at h) in
        let same : provider_verdict i (sole_record xs) ≡ v = cc k in
        provider_verdict-ne i (sole_record xs) (ap (λ (x : Verdict). x.reason_code) same ∙ r)
  ]

  -- Neither an importing provider nor Meta, Apple or the referrer's status settles the install.
  pub record IsOpen : Type 0 where
    pub not_imported : is_imported a ≡ false
    pub no_meta :
        meta_verdict a.event.payload.meta_attribution_model a.event.payload.meta_referrer_status
        ≡ none
    pub no_evidence : evidence_verdict a.event.payload ≡ none

  pub install_verdict_sound :
      (v : Verdict)
      → install_verdict dg candidates decisions a ≡ ok v
      → v.reason_code ≡ valid
      → (click : CandidateAttempt) × IsOpen
        × (counted_clicks dg candidates decisions a ≡ ok (click ∷ []))
        × (v ≡ matched click)
        × IsTimely a click
  unfolding install_verdict
  install_verdict_sound v h r = elim (Bool-cases (is_imported a)) [
    | inl i ↦ absurd (imported_verdict-ne a.event.payload.import_context v (rw i at h) r)
    | inr i ↦
        elim (Option-cases (
          meta_verdict a.event.payload.meta_attribution_model
            a.event.payload.meta_referrer_status)) [
              | inr (o, m) ↦ absurd (meta_verdict-ne _ _ o v m (rw (i, m, meta_or_later) at h) r)
              | inl m ↦ elim (Option-cases (evidence_verdict a.event.payload)) [
                | inr (w, e) ↦
                    let same : w ≡ v = cc (rw (i, m, meta_or_later, e, settled_or_clicks) at h) in
                    absurd (
                      evidence_verdict-ne a.event.payload w e
                        (ap (λ (x : Verdict). x.reason_code) same ∙ r))
                | inl e ↦
                    let (clicks, counted, k) =
                      >>=-eq-ok (counted_clicks dg candidates decisions a) _
                        (rw (i, m, meta_or_later, e, settled_or_clicks) at h) in
                    let (click, only, found, timely) = clicks_verdict_sound a clicks v k r in
                    (
                      click,
                      record { not_imported = i; no_meta = m; no_evidence = e },
                      counted ∙ ap ok only,
                      found,
                      timely,
                    )
              ]
            ]
  ]

  pub install_verdict_complete :
      (click : CandidateAttempt)
      → IsOpen
      → counted_clicks dg candidates decisions a ≡ ok (click ∷ [])
      → IsTimely a click
      → install_verdict dg candidates decisions a ≡ ok (matched click)
  unfolding install_verdict
  install_verdict_complete click o only m =
      rw (o.not_imported, o.no_meta, meta_or_later, o.no_evidence, settled_or_clicks, only)
        (single_click_verdict_complete a click m)
