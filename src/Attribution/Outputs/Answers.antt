-- ===== src/Attribution/Outputs/Answers.antt =====
-- What `evaluate` answers to each attempt.
use mathlib.Core.List.{Memᴰ, Permᴰ}
use mathlib.Core.List.Memᴰ
use mathlib.Core.List.Permᴰ
use mathlib.Core.Path.{subst}
use open_mmp.Common.{
  ◌≡◌, refl, sym, ap, ◌∙◌, ◌⊎◌, inl, inr, true, List, [], ◌∷◌, map, some, none, String, lookup,
  Option, or_else, Outcome, ok, throw, >>=-eq-ok,
}
use open_mmp.Common.Sorting.{sort-Permᴰ, Memᴰ-Permᴰ}
use open_mmp.Common.Members.{filter-Memᴰ, map-Memᴰ}
use open_mmp.Attribution.Types.{CandidateAttempt, Digests}
use open_mmp.Attribution.Errors.{Error}
use open_mmp.Attribution.Candidates.{CandidateProvider, key_eq}
use open_mmp.Attribution.Decide.{Decision, IngestionStatus, decision_key}
use open_mmp.Attribution.Results.{Decisions, decision_for, found_or_missing}
use open_mmp.Attribution.Order.{sort_by_key, sort_candidate_attempts, compare_candidate_attempts}
use open_mmp.Attribution.Evaluate.{map_of}
use open_mmp.Attribution.Evaluate.Laws.{map_of-cases}
use open_mmp.Attribution.Outputs.{make_delivery, make_rejection}
use open_mmp.Attribution.Outputs.Ledger.{
  map_each, OutputDigests, Input, Ledger, is_rejected, with_decision, deliveries_of, rejections_of,
  evaluate,
}
use open_mmp.Attribution.Outputs.Built.{evaluate-Built}
use open_mmp.Attribution.Outputs.Erasure.{sort_by_key-keeps-Memᴰ}

module _ {ℓ κ μ} {A : Type ℓ} {B : Type κ} {K : Type μ} (f : A → Outcome Error B) (g : B → K)
    (k : A → K) (same : (x : A) (y : B) → f x ≡ ok y → g y ≡ k x) where
  map_each-map : (xs : List A) (ys : List B) → map_each f xs ≡ ok ys → map g ys ≡ map k xs
  unfolding map_each
  map_each-map [] ys h = let e : [] ≡ ys = cc h in rw (sym e) refl
  map_each-map (x ∷ xs) ys h =
      let (z, hz, h1) = >>=-eq-ok (f x) _ h in
      let (zs, hzs, h2) = >>=-eq-ok (map_each f xs) _ h1 in
      let e : z ∷ zs ≡ ys = cc h2 in
      let head = same x z hz in
      let tail = map_each-map xs zs hzs in
      rw (sym e) (ap (λ a. a ∷ map g zs) head ∙ ap (λ t. k x ∷ t) tail)

module _ {ℓ κ} {A : Type ℓ} {B : Type κ} (f : A → Outcome Error B) where
  map_each-keeps-Memᴰ :
      (xs : List A) (ys : List B) (x : A)
      → map_each f xs ≡ ok ys
      → Memᴰ x xs
      → (y : B) × Memᴰ y ys × (f x ≡ ok y)
  unfolding map_each
  map_each-keeps-Memᴰ [] ys x h m = elim m [ ]
  map_each-keeps-Memᴰ (w ∷ xs) ys x h m =
      let (z, hz, h1) = >>=-eq-ok (f w) _ h in
      let (zs, hzs, h2) = >>=-eq-ok (map_each f xs) _ h1 in
      let e : z ∷ zs ≡ ys = cc h2 in
      elim (Memᴰ.cases_cons m) [
        | inl q ↦ (z, rw (sym e) (Memᴰ.head refl), ap f q ∙ hz)
        | inr n ↦
            let (y, o, t) = map_each-keeps-Memᴰ xs zs x hzs n in (y, rw (sym e) (Memᴰ.tail o), t)
      ]

found_or_missing-some :
    (delivery_id : String) (o : Option Decision) (d : Decision)
    → found_or_missing delivery_id o ≡ ok d
    → o ≡ some d
found_or_missing-some delivery_id none d h = cc h
found_or_missing-some delivery_id (some c) d h =
    ap (λ r. elim r [ ok x ↦ some x | throw e ↦ some c ]) h

module _ (dg : Digests) (decisions : Decisions) (a : CandidateAttempt)
    (p : CandidateAttempt × Decision) (h : with_decision dg decisions a ≡ ok p) where
  with_decision-attempt : p.0 ≡ a
  with_decision-attempt =
      let (d, hd, k) = >>=-eq-ok (decision_for dg decisions a) _ h in
      sym (ap (λ r. elim r [ ok x ↦ x.0 | throw e ↦ a ]) k)

  with_decision-found : lookup ⦃e = key_eq⦄ (decision_key dg a) decisions ≡ some p.1
  with_decision-found =
      let (d, hd, k) = >>=-eq-ok (decision_for dg decisions a) _ h in
      let found = found_or_missing-some a.event.delivery_id _ d hd in
      found ∙ ap (λ r. elim r [ ok x ↦ some x.1 | throw e ↦ some d ]) k

is_rejected-cases : (s : IngestionStatus) → (s ≡ IngestionStatus.accepted) ⊎ (is_rejected s ≡ true)
is_rejected-cases IngestionStatus.accepted = inl refl
is_rejected-cases IngestionStatus.rejected = inr refl

map_delivery_id :
    (decided : List (CandidateAttempt × Decision))
    → map (λ d. d.delivery_id) (map (λ p. make_delivery p.0 p.1) decided)
      ≡ map (λ p. p.0.event.delivery_id) decided
map_delivery_id [] = refl
map_delivery_id (p ∷ decided) = ap (λ t. p.0.event.delivery_id ∷ t) (map_delivery_id decided)

module _ (dg : Digests) (od : OutputDigests) where
  -- A decision of the list is an acceptance, or has its rejection.
  listed-rejection :
      (listed : Decisions) (a : CandidateAttempt) (d : Decision)
      → lookup ⦃e = key_eq⦄ (decision_key dg a) (map_of listed []) ≡ some d
      → (d.ingestion_status ≡ IngestionStatus.accepted)
        ⊎ Memᴰ (make_rejection d) (rejections_of dg od listed)
  listed-rejection listed a d found = elim (is_rejected-cases d.ingestion_status) [
    | inl t ↦ inl t
    | inr t ↦ elim (map_of-cases (decision_key dg a) listed []) [
      | inl absent ↦ let e = sym absent ∙ found in cc e
      | inr (c, m, e) ↦
          let same : c ≡ d = ap (λ o. or_else o c) (sym e ∙ found) in
          let n = subst (λ x. Memᴰ (decision_key dg a, x) listed) same m in
          inr (
            sort_by_key-keeps-Memᴰ od.of_rejection _ _ _ (
              map-Memᴰ (λ p. make_rejection p.1) _ (decision_key dg a, d)
                (filter-Memᴰ (λ p. is_rejected p.1.ingestion_status) listed _ n t)))
    ]
  ]

  -- The identifiers of the deliveries are those of the attempts.
  deliveries_of-Permᴰ :
      (decisions : Decisions) (all : List CandidateAttempt)
      (decided : List (CandidateAttempt × Decision))
      → map_each (with_decision dg decisions) all ≡ ok decided
      → Permᴰ
          (map (λ d. d.delivery_id) (deliveries_of dg od decided))
          (map (λ b. b.event.delivery_id) all)
  unfolding sort_by_key
  deliveries_of-Permᴰ decisions all decided h =
      let made = map (λ p. make_delivery p.0 p.1) decided in
      let moved = Permᴰ.map (λ d. d.delivery_id) (sort-Permᴰ _ made) in
      let same =
        map_delivery_id decided
        ∙ map_each-map (with_decision dg decisions) (λ p. p.0.event.delivery_id)
            (λ b. b.event.delivery_id)
            (λ b p e. ap (λ x. x.event.delivery_id) (with_decision-attempt dg decisions b p e)) all
            decided h in
      subst (Permᴰ _) same moved

module _ (dg : Digests) (all : List CandidateAttempt) where
  sort_candidate_attempts-keeps-Memᴰ :
      (a : CandidateAttempt) → Memᴰ a all → Memᴰ a (sort_candidate_attempts dg all)
  unfolding sort_candidate_attempts
  sort_candidate_attempts-keeps-Memᴰ a m =
      Memᴰ-Permᴰ a (Permᴰ.symm (sort-Permᴰ (compare_candidate_attempts dg) all)) m

  sort_candidate_attempts-delivery_ids :
      Permᴰ
        (map (λ b. b.event.delivery_id) (sort_candidate_attempts dg all))
        (map (λ b. b.event.delivery_id) all)
  unfolding sort_candidate_attempts
  sort_candidate_attempts-delivery_ids =
      Permᴰ.map (λ b. b.event.delivery_id) (sort-Permᴰ (compare_candidate_attempts dg) all)

-- Each attempt of an input gets exactly one delivery in the ledger: the delivery identifiers are those of
-- the attempts, as often as there. And each attempt has a decision that its delivery is
-- made of, and that is either an acceptance or has its rejection in the ledger.
pub evaluate_answers :
    (dg : Digests) (od : OutputDigests) (i : Input)
    (factory : List CandidateAttempt → CandidateProvider) (ledger : Ledger) (a : CandidateAttempt)
    → evaluate dg od i factory ≡ ok ledger
    → Memᴰ a i.all_attempts
    → Permᴰ
        (map (λ d. d.delivery_id) ledger.deliveries)
        (map (λ b. b.event.delivery_id) i.all_attempts)
      × ((d : Decision) × Memᴰ (make_delivery a d) ledger.deliveries
          × ((d.ingestion_status ≡ IngestionStatus.accepted)
              ⊎ Memᴰ (make_rejection d) ledger.rejections))
evaluate_answers dg od i factory ledger a h m =
    let b = evaluate-Built dg od i factory ledger h in
    let decisions = map_of b.listed [] in
    let n = sort_candidate_attempts-keeps-Memᴰ dg i.all_attempts a m in
    let (p, q, e) = map_each-keeps-Memᴰ (with_decision dg decisions) _ b.decided a b.decided_eq n in
    let own = with_decision-attempt dg decisions a p e in
    let found = with_decision-found dg decisions a p e in
    let delivered = deliveries_of-Permᴰ dg od decisions _ b.decided b.decided_eq in
    let made = subst (λ x. Memᴰ (x, p.1) b.decided) own q in
    rw b.ledger_eq (
      Permᴰ.trans delivered (sort_candidate_attempts-delivery_ids dg i.all_attempts),
      (
        p.1,
        sort_by_key-keeps-Memᴰ od.of_delivery _ _ _
            (map-Memᴰ (λ x. make_delivery x.0 x.1) b.decided (a, p.1) made),
        listed-rejection dg od b.listed a p.1 found,
      ),
    )
