-- ===== src/Attribution/FraudDecisions/Laws.antt =====
-- When fraud takes an attribution away.
use mathlib.Core.List.{Memᴰ}
use mathlib.Core.List.Memᴰ
use mathlib.Core.Path.{subst}
use open_mmp.Common.{
  ◌≡◌, ◌⊎◌, refl, sym, ap, ◌∙◌, inl, inr, true, ◌&&◌, List, [], ◌∷◌, Option, none, some, String,
  opt_eq, opt_eq_iff, or_else, eq_iff, lookup, lookup-insert, truthy, Bool-cases, Option-cases,
  arith, optional_eq,
}
use open_mmp.Common.Members.{find-Memᴰ}
use open_mmp.Attribution.Types.{CandidateAttempt}
use open_mmp.Attribution.Candidates.{is_click}
use open_mmp.Attribution.Anchors.{is_install}
use open_mmp.Attribution.Results.{AttributionResult}
use open_mmp.Attribution.FraudDecisions.{FraudDecision}
use open_mmp.Attribution.FraudDecisions.Exclusion.{
  is_exclude, ExcludedClicks, subject_click, exclude_click, excluded_clicks, FraudAttribution,
  fraud_attribution, superseding, attributions_of, fraud_attributions,
}

-- A decision that excludes an accepted click with the click id, where the click's server lets fraud
-- act.
pub record Excludes (accepted : List CandidateAttempt) (click_id : Option String)
    (d : FraudDecision) : Type 0 where
  pub click : CandidateAttempt
  pub click_accepted : Memᴰ click accepted
  pub click_is_click : is_click click ≡ true
  pub click_named : click.event.payload.click_id ≡ click_id
  pub click_given : truthy click_id ≡ true
  pub actions_enabled : click.server.fraud_actions_enabled ≡ true
  pub excluding : is_exclude d.action ≡ true
  pub about_click : click.event.record_id ≡ d.subject_ref

exclude_click-cases :
    (accepted : List CandidateAttempt) (c : FraudDecision) (o : Option CandidateAttempt)
    (clicks : ExcludedClicks) (key : Option String) (d : FraudDecision)
    → subject_click accepted c ≡ o
    → is_exclude c.action ≡ true
    → lookup ⦃e = optional_eq⦄ key (exclude_click o c clicks) ≡ some d
    → (lookup ⦃e = optional_eq⦄ key clicks ≡ some d) ⊎ ((c ≡ d) × Excludes accepted key d)
exclude_click-cases accepted c none clicks key d s x h = inl h
exclude_click-cases accepted c (some a) clicks key d s x h =
    elim (Bool-cases (a.server.fraud_actions_enabled && truthy a.event.payload.click_id)) [
      | inr t ↦ inl (rw t at h)
      | inl t ↦
          let step =
            sym (lookup-insert ⦃e = optional_eq⦄ a.event.payload.click_id key c clicks)
            ∙ rw t at h in
          elim (Bool-cases (opt_eq a.event.payload.click_id key)) [
            | inr n ↦ inl (rw n at step)
            | inl n ↦
                let same : c ≡ d = ap (λ o. or_else o c) (rw n at step) in
                let named = (opt_eq_iff a.event.payload.click_id key).0 n in
                let (m, q) = find-Memᴰ _ accepted a s in
                inr (
                  subst (λ x. (c ≡ x) × Excludes accepted key x) same
                    (
                      refl,
                      record {
                        click = a;
                        click_accepted = m;
                        click_is_click = ground arith;
                        click_named = named;
                        click_given = ground (arith, sym (ap truthy named));
                        actions_enabled = ground arith;
                        excluding = x;
                        about_click = (eq_iff a.event.record_id c.subject_ref).0 (ground arith);
                      },
                    ))
          ]
    ]

excluded_clicks-cases :
    (accepted : List CandidateAttempt) (ds : List FraudDecision) (clicks : ExcludedClicks)
    (key : Option String) (d : FraudDecision)
    → lookup ⦃e = optional_eq⦄ key (excluded_clicks accepted ds clicks) ≡ some d
    → (lookup ⦃e = optional_eq⦄ key clicks ≡ some d) ⊎ (Memᴰ d ds × Excludes accepted key d)
unfolding excluded_clicks
excluded_clicks-cases accepted [] clicks key d h = inl h
excluded_clicks-cases accepted (c ∷ ds) clicks key d h =
    elim (excluded_clicks-cases accepted ds _ key d h) [
      | inr (m, x) ↦ inr (Memᴰ.tail m, x)
      | inl k ↦ elim (Bool-cases (is_exclude c.action)) [
        | inr t ↦ inl (rw t at k)
        | inl t ↦
            elim (exclude_click-cases accepted c (subject_click accepted c) clicks key d refl t
              (rw t at k)) [ inl q ↦ inl q | inr (same, x) ↦ inr (Memᴰ.head (sym same), x) ]
      ]
    ]

-- What an attribution that fraud takes away comes from: an accepted install of the excluded click's id,
-- and an attribution of that installation.
pub record IsTakenAway (accepted : List CandidateAttempt) (ds : List FraudDecision)
    (initial : List AttributionResult) (x : FraudAttribution) : Type 0 where
  pub install : CandidateAttempt
  pub install_accepted : Memᴰ install accepted
  pub install_is_install : is_install install ≡ true
  pub decision : FraudDecision
  pub decided : Memᴰ decision ds
  pub excludes : Excludes accepted install.event.payload.click_id decision
  pub prior_is_initial : Memᴰ x.prior initial
  pub prior_of_install : x.prior.subject_ref ≡ install.event.payload.installation_id
  pub made_of_prior : x ≡ fraud_attribution x.prior decision

module _ (clicks : ExcludedClicks) (initial : List AttributionResult) (x : FraudAttribution) where
  superseding-Memᴰ :
      (o : Option AttributionResult) (d : FraudDecision)
      → Memᴰ x (superseding o d)
      → (prior : AttributionResult) × (o ≡ some prior) × (x ≡ fraud_attribution prior d)
  superseding-Memᴰ none d m = elim m [ ]
  superseding-Memᴰ (some prior) d (Memᴰ.head e) = (prior, refl, e)
  superseding-Memᴰ (some prior) d (Memᴰ.tail m) = elim m [ ]

  fraud_attributions-Memᴰ :
      (xs : List CandidateAttempt)
      → Memᴰ x (fraud_attributions clicks initial xs)
      → (a : CandidateAttempt) × Memᴰ a xs
        × (is_install a ≡ true)
        × Memᴰ x (
            attributions_of clicks initial a
              (lookup ⦃e = optional_eq⦄ a.event.payload.click_id clicks))
  unfolding fraud_attributions
  fraud_attributions-Memᴰ [] m = elim m [ ]
  fraud_attributions-Memᴰ (a ∷ xs) m = elim (Bool-cases (is_install a)) [
    | inr t ↦ let (b, n, i, k) = fraud_attributions-Memᴰ xs (rw t at m) in (b, Memᴰ.tail n, i, k)
    | inl t ↦ elim (Memᴰ.append_cases (attributions_of clicks initial a _) (rw t at m)) [
      | inl n ↦ (a, Memᴰ.head refl, t, n)
      | inr n ↦ let (b, o, i, k) = fraud_attributions-Memᴰ xs n in (b, Memᴰ.tail o, i, k)
    ]
  ]

-- Fraud takes an attribution away only where the server lets fraud act: each attribution that supersedes
-- one for fraud is that of an accepted install, made of an initial attribution of its installation, and
-- a decision excludes an accepted click, of the install's click id, whose server enables actions.
pub fraud_attributions_sound :
    (accepted : List CandidateAttempt) (ds : List FraudDecision) (initial : List AttributionResult)
    (x : FraudAttribution)
    → Memᴰ x (fraud_attributions (excluded_clicks accepted ds []) initial accepted)
    → IsTakenAway accepted ds initial x
fraud_attributions_sound accepted ds initial x m =
    let clicks = excluded_clicks accepted ds [] in
    let (a, n, i, k) = fraud_attributions-Memᴰ clicks initial x accepted m in
    elim (Option-cases (lookup ⦃e = optional_eq⦄ a.event.payload.click_id clicks)) [
      | inl e ↦ elim (rw e at k) [ ]
      | inr (d, e) ↦
          let taken = superseding-Memᴰ clicks initial x _ d (rw e at k) in
          let (prior, found, made) = taken in
          let (p, q) = find-Memᴰ _ initial prior found in
          let own = ap (λ y. y.prior) made in
          elim (excluded_clicks-cases accepted ds [] a.event.payload.click_id d e) [
            | inl none_yet ↦ cc none_yet
            | inr (o, excludes) ↦ record {
              install = a;
              install_accepted = n;
              install_is_install = i;
              decision = d;
              decided = o;
              excludes = excludes;
              prior_is_initial = subst (λ y. Memᴰ y initial) (sym own) p;
              prior_of_install =
                  ap (λ y. y.subject_ref) own
                  ∙ (opt_eq_iff prior.subject_ref a.event.payload.installation_id).0 q;
              made_of_prior = made ∙ ap (λ y. fraud_attribution y d) (sym own);
            }
          ]
    ]
