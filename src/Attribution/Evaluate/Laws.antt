-- ===== src/Attribution/Evaluate/Laws.antt =====
-- Every attempt of an evaluation has its decision.
use mathlib.Core.List.{Memᴰ}
use mathlib.Core.List.Memᴰ
use mathlib.Core.Path.{subst}
use open_mmp.Common.{
  ◌≡◌, ◌≢◌, ◌⊎◌, inl, inr, refl, ◌↔◌, true, sym, ap, ◌∙◌, Bool, List, [], ◌∷◌, Option, some, String,
  lookup, insert, lookup-insert, Bool-cases, Outcome, ok, throw, >>=-eq-ok, arith,
}
use open_mmp.Attribution.Types.{CandidateAttempt, Digests}
use open_mmp.Attribution.Errors.{Error, timestamp_invalid}
use open_mmp.Attribution.Candidates.{CandidateProvider, CompositeKey, key_eq}
use open_mmp.Attribution.Decide.{
  Decision, decision_key, decide, rejected, discarded, ReasonCode, IngestionStatus,
  DuplicateResolution,
}
use open_mmp.Attribution.Results.{
  Decisions, decision_for, filter_counted, found_or_missing, is_accepted_unique,
}
use open_mmp.Attribution.Evaluate.Choices.{
  ok-injective, is_accepted_unique_iff, cons-kept, cons-left,
}
use open_mmp.Attribution.Evaluate.{
  invalid_decision, caught, decide_or_invalid, decide_each, map_of, decide_all,
}

pub map_of-cases :
    (key : CompositeKey) (ds index : Decisions)
    → (lookup ⦃e = key_eq⦄ key (map_of ds index) ≡ lookup ⦃e = key_eq⦄ key index)
      ⊎ ((d : Decision) × Memᴰ (key, d) ds × (lookup ⦃e = key_eq⦄ key (map_of ds index) ≡ some d))
unfolding map_of
map_of-cases key [] index = inl refl
map_of-cases key ((k, d) ∷ rest) index =
    elim (map_of-cases key rest (insert ⦃e = key_eq⦄ k d index)) [
      | inr (c, m, e) ↦ inr (c, Memᴰ.tail m, e)
      | inl e ↦
          let step = e ∙ lookup-insert ⦃e = key_eq⦄ k key d index in
          elim (Bool-cases (key_eq.beq k key)) [
            | inl t ↦
                let same : key ≡ k = sym ((key_eq.beq_iff k key).0 t) in
                inr (d, Memᴰ.head (ap (λ j. (j, d)) same), rw t at step)
            | inr t ↦ inl (rw t at step)
          ]
    ]

-- A key of the list is found in the map of it, with a value that the list has for it.
map_of-found :
    (key : CompositeKey) (ds index : Decisions) (d : Decision)
    → Memᴰ (key, d) ds
    → (c : Decision) × Memᴰ (key, c) ds × (lookup ⦃e = key_eq⦄ key (map_of ds index) ≡ some c)
unfolding map_of
map_of-found key [] index d m = elim m [ ]
map_of-found key ((k, c) ∷ rest) index d (Memᴰ.head e) =
    let same : key ≡ k = ap (λ x. x.0) e in
    elim (map_of-cases key rest (insert ⦃e = key_eq⦄ k c index)) [
      | inr (x, m, q) ↦ (x, Memᴰ.tail m, q)
      | inl q ↦
          let step = q ∙ lookup-insert ⦃e = key_eq⦄ k key c index in
          (c, Memᴰ.head (ap (λ j. (j, c)) same), rw ((key_eq.beq_iff k key).1 (sym same)) at step)
    ]
map_of-found key ((k, c) ∷ rest) index d (Memᴰ.tail m) =
    let (x, n, q) = map_of-found key rest (insert ⦃e = key_eq⦄ k c index) d m in (x, Memᴰ.tail n, q)

caught-ne :
    (a : CandidateAttempt) (o : Outcome Error Decision) (field : String) (value : Option String)
    → caught a o ≢ throw (timestamp_invalid field value)
caught-ne a o field value h = ground arith

module _ (dg : Digests) (c : CandidateProvider) where
  -- What a list of decisions holds of the attempts that it is made of.
  abbrev pub DecidedIn : List CandidateAttempt → CompositeKey × Decision → Type 0
  DecidedIn all e =
      (b : CandidateAttempt) × Memᴰ b all
      × (decision_key dg b ≡ e.0)
      × (decide_or_invalid dg c b ≡ ok e.1)

  decide_each-all :
      (all : List CandidateAttempt) (ds : Decisions) (a : CandidateAttempt)
      → decide_each dg c all ≡ ok ds
      → Memᴰ a all
      → (d : Decision) × Memᴰ (decision_key dg a, d) ds
  unfolding decide_each
  decide_each-all [] ds a h m = elim m [ ]
  decide_each-all (b ∷ rest) ds a h m =
      let (d, hd, k) = >>=-eq-ok (decide_or_invalid dg c b) _ h in
      let (es, he, l) = >>=-eq-ok (decide_each dg c rest) _ k in
      let same : (decision_key dg b, d) ∷ es ≡ ds = cc l in
      subst (λ (xs : Decisions). (x : Decision) × Memᴰ (decision_key dg a, x) xs) same
        (elim m [
          | Memᴰ.head e ↦ (d, Memᴰ.head (ap (λ x. (decision_key dg x, d)) e))
          | Memᴰ.tail n ↦ let (x, i) = decide_each-all rest es a he n in (x, Memᴰ.tail i)
        ])

  DecidedIn-cons :
      (b : CandidateAttempt) (rest : List CandidateAttempt) (e : CompositeKey × Decision)
      → DecidedIn rest e
      → DecidedIn (b ∷ rest) e
  DecidedIn-cons b rest e (x, m, k, h) = (x, Memᴰ.tail m, k, h)

  decide_each-DecidedIn :
      (all : List CandidateAttempt) (ds : Decisions) (e : CompositeKey × Decision)
      → decide_each dg c all ≡ ok ds
      → Memᴰ e ds
      → DecidedIn all e
  unfolding decide_each
  decide_each-DecidedIn [] ds e h m = let same : ds ≡ [] = cc in elim (subst (Memᴰ e) same m) [ ]
  decide_each-DecidedIn (b ∷ rest) ds e h m =
      let (d, hd, k) = >>=-eq-ok (decide_or_invalid dg c b) _ h in
      let (es, he, l) = >>=-eq-ok (decide_each dg c rest) _ k in
      let same : ds ≡ (decision_key dg b, d) ∷ es = cc l in
      elim (Memᴰ.cases_cons (subst (Memᴰ e) same m)) [
        | inl at ↦ (b, Memᴰ.head refl, sym (ap (λ x. x.0) at), hd ∙ ap (λ x. ok x.1) (sym at))
        | inr n ↦ DecidedIn-cons b rest e (decide_each-DecidedIn rest es e he n)
      ]

  -- Once the attempts of an evaluation are decided, each of them finds a decision: that of an
  -- attempt of the evaluation with its decision key, which `decide` or the handler of unreadable
  -- times came to. `decisionFor` throws for none of them.
  pub decide_all-found :
      (all : List CandidateAttempt) (index : Decisions) (a : CandidateAttempt)
      → decide_all dg c all ≡ ok index
      → Memᴰ a all
      → (d : Decision) × (decision_for dg index a ≡ ok d) × DecidedIn all (decision_key dg a, d)
  unfolding decide_all
  decide_all-found all index a h m =
      let (ds, each, k) = >>=-eq-ok (decide_each dg c all) _ h in
      let same : map_of ds [] ≡ index = cc k in
      let (d, listed) = decide_each-all all ds a each m in
      let (x, n, q) = map_of-found (decision_key dg a) ds [] d listed in
      let found : lookup ⦃e = key_eq⦄ (decision_key dg a) index ≡ some x =
        subst (λ (y : Decisions). lookup ⦃e = key_eq⦄ (decision_key dg a) y ≡ some x) same q in
      (
        x,
        ap (found_or_missing a.event.delivery_id) found,
        decide_each-DecidedIn all ds (decision_key dg a, x) each n,
      )

  abbrev HasDecision : Decisions → CandidateAttempt → Type 0
  HasDecision index a = (d : Decision) × (decision_for dg index a ≡ ok d)

  -- An attempt that meets a test and finds a decision that is accepted and unique, and one of some
  -- attempts that does so.
  abbrev pub Passes : Decisions → (CandidateAttempt → Bool) → CandidateAttempt → Type 0
  Passes index p a =
      (p a ≡ true)
      × ((d : Decision) × (decision_for dg index a ≡ ok d)
          × (d.ingestion_status ≡ IngestionStatus.accepted)
          × (d.duplicate_resolution ≡ DuplicateResolution.unique))

  abbrev pub Counts :
      Decisions → (CandidateAttempt → Bool) → List CandidateAttempt → CandidateAttempt → Type 0
  Counts index p xs a = Memᴰ a xs × Passes index p a

  -- The list that is chosen from another, and what is on it.
  abbrev Chosen : Decisions → (CandidateAttempt → Bool) → List CandidateAttempt → Type 0
  Chosen index p xs =
      (ys : List CandidateAttempt) × (filter_counted dg index p xs ≡ ok ys)
      × ((a : CandidateAttempt) → Memᴰ a ys ↔ Counts index p xs a)

  filter_counted-Chosen :
      (index : Decisions) (p : CandidateAttempt → Bool) (xs : List CandidateAttempt)
      → ((a : CandidateAttempt) → Memᴰ a xs → HasDecision index a)
      → Chosen index p xs
  unfolding filter_counted
  filter_counted-Chosen index p [] f = ([], refl, λ a. (λ m. elim m [ ], λ (m, _). elim m [ ]))
  filter_counted-Chosen index p (x ∷ xs) f =
      let (d, e) = f x (Memᴰ.head refl) in
      let (ys, h, members) = filter_counted-Chosen index p xs (λ a m. f a (Memᴰ.tail m)) in
      let counted = is_accepted_unique_iff d in
      elim (Bool-cases (p x)) [
        | inl t ↦ elim (Bool-cases (is_accepted_unique d)) [
          | inl u ↦
              let (accepted, sole) = counted.0 u in
              (
                x ∷ ys,
                rw (t, e, h, u) refl,
                cons-kept (Passes index p) x ys xs (t, (d, e, accepted, sole)) members,
              )
          | inr u ↦ (
            ys,
            rw (t, e, h, u) refl,
            cons-left (Passes index p) x ys xs
                (λ (_, (c, found, k, l)).
                  let same : c ≡ d = ok-injective (sym found ∙ e) in
                  let v = (is_accepted_unique_iff c).1 (k, l) in cc (rw same at v, u))
                members,
          )
        ]
        | inr t ↦
            (ys, rw (t, h) refl, cons-left (Passes index p) x ys xs (λ (v, _). cc (v, t)) members)
      ]

  -- Once the attempts of an evaluation are decided, choosing among them those that count, by any
  -- test, returns a list, and those on it are exactly the attempts that meet the test and whose
  -- decision, which is found in the map of decisions, is accepted and unique.
  pub decide_all-filter_counted :
      (all : List CandidateAttempt) (index : Decisions) (p : CandidateAttempt → Bool)
      → decide_all dg c all ≡ ok index
      → (counted : List CandidateAttempt) × (filter_counted dg index p all ≡ ok counted)
        × ((a : CandidateAttempt) → Memᴰ a counted ↔ Counts index p all a)
  decide_all-filter_counted all index p h =
      filter_counted-Chosen index p all
        λ a m. let (d, found, _) = decide_all-found all index a h m in (d, found)

  -- No unreadable time of an attempt ends an evaluation: where `decide` throws for one, the
  -- attempt is rejected as `timestamp_invalid` with its payload discarded, and no such error is
  -- passed on.
  pub decide_or_invalid-timestamp :
      (a : CandidateAttempt) (field : String) (value : Option String)
      → (decide dg a c ≡ throw (timestamp_invalid field value)
          → (d : Decision) × (decide_or_invalid dg c a ≡ ok d)
            × (d.ingestion_status ≡ rejected)
            × (d.payload_disposition ≡ discarded)
            × (d.reason_code ≡ some ReasonCode.timestamp_invalid))
        × (decide_or_invalid dg c a ≢ throw (timestamp_invalid field value))
  unfolding decide_or_invalid
  decide_or_invalid-timestamp a field value = (
    λ h. (invalid_decision a, ap (caught a) h, refl, refl, refl),
    caught-ne a (decide dg a c) field value,
  )
