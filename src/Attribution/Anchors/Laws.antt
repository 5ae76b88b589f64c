-- ===== src/Attribution/Anchors/Laws.antt =====
-- Which installs `assertInstallationAnchors` lets through.
use open_mmp.Common.{
  ◌≡◌, ◌≢◌, ◌↔◌, inl, inr, refl, true, false, List, [], ◌∷◌, none, truthy, opt_eq_iff, any, ok,
  arith, Bool-cases, Option-cases, All,
}
use open_mmp.Attribution.Types.{CandidateAttempt, Digests}
use open_mmp.Attribution.Candidates.{CompositeKey, key_eq}
use open_mmp.Attribution.Results.{Decisions, filter_counted}
use open_mmp.Attribution.Anchors.{
  is_install, installation_key, anchor_of, is_again, has, prior_error, anchor_error, check_anchors,
  assert_installation_anchors,
}

-- A reinstall names another installation that has an install; any other install names none.
pub record IsAnchored (installs : List CandidateAttempt) (a : CandidateAttempt) : Type 0 where
  pub again :
      is_again a.event.payload.install_type ≡ true
      → (truthy a.event.payload.prior_installation_id ≡ true)
        × (a.event.payload.prior_installation_id ≢ a.event.payload.installation_id)
        × (any
              (λ c.
                key_eq.beq (anchor_of c) (installation_key a a.event.payload.prior_installation_id))
              installs
            ≡ true)
  pub first :
      is_again a.event.payload.install_type ≡ false
      → truthy a.event.payload.prior_installation_id ≡ false

-- No two installs are of one installation.
abbrev pub HasDistinctAnchors : List CandidateAttempt → Type 0
HasDistinctAnchors [] = Unit
HasDistinctAnchors (a ∷ rest) = All (λ b. anchor_of a ≢ anchor_of b) rest × HasDistinctAnchors rest

prior_error-none :
    (installs : List CandidateAttempt) (a : CandidateAttempt)
    → (prior_error installs a ≡ none) ↔ IsAnchored installs a
unfolding prior_error
prior_error-none installs a =
    let same = opt_eq_iff a.event.payload.prior_installation_id a.event.payload.installation_id in
    elim (Bool-cases (is_again a.event.payload.install_type)) [
      | inl g ↦ (
        λ h. record { again = λ _. ground (arith, same); first = λ f. absurd cc },
        λ k. let (t, ne, found) = k.again g in ground (arith, same),
      )
      | inr g ↦ (
        λ h. record { again = λ t. absurd cc; first = λ _. ground arith },
        λ k. let t = k.first g in ground arith,
      )
    ]

anchor_error-none :
    (installs : List CandidateAttempt) (anchors : List CompositeKey) (a : CandidateAttempt)
    → (anchor_error installs anchors a ≡ none)
      ↔ ((has anchors (anchor_of a) ≡ false) × IsAnchored installs a)
unfolding anchor_error
anchor_error-none installs anchors a = ground (arith, prior_error-none installs a)

has-cons :
    (k : CompositeKey) (anchors : List CompositeKey) (j : CompositeKey)
    → (has (k ∷ anchors) j ≡ false) ↔ ((k ≢ j) × (has anchors j ≡ false))
has-cons k anchors j = ground (arith, key_eq.beq_iff k j)

All-and_iff :
    {P Q R : CandidateAttempt → Type 0} (xs : List CandidateAttempt)
    → ((x : CandidateAttempt) → P x ↔ (Q x × R x))
    → All P xs ↔ (All Q xs × All R xs)
All-and_iff [] h = (λ _. (tt, tt), λ _. tt)
All-and_iff (x ∷ xs) h =
    let (to, from) = All-and_iff xs h in
    (
      λ (p, ps). ((((h x).0 p).0, (to ps).0), (((h x).0 p).1, (to ps).1)),
      λ ((q, qs), (r, rs)). ((h x).1 (q, r), from (qs, rs)),
    )

check_anchors-ok :
    (installs rest : List CandidateAttempt) (anchors : List CompositeKey)
    → (check_anchors installs rest anchors ≡ ok tt) ↔ (
        All (λ a. has anchors (anchor_of a) ≡ false) rest
        × (HasDistinctAnchors rest × All (IsAnchored installs) rest))
unfolding check_anchors
check_anchors-ok installs [] anchors = (λ _. (tt, (tt, tt)), λ _. refl)
check_anchors-ok installs (a ∷ rest) anchors =
    let (to, from) = anchor_error-none installs anchors a in
    let (down, up) = check_anchors-ok installs rest (anchor_of a ∷ anchors) in
    let (split, join) =
      All-and_iff {P = λ b. has (anchor_of a ∷ anchors) (anchor_of b) ≡ false}
        {Q = λ b. anchor_of a ≢ anchor_of b} {R = λ b. has anchors (anchor_of b) ≡ false} rest
        (λ b. has-cons (anchor_of a) anchors (anchor_of b)) in
    elim (Option-cases (anchor_error installs anchors a)) [
      | inr (e, h) ↦ (
        λ q. absurd (cc (rw h at q)),
        λ ((new, _), (_, (anchored, _))). absurd (cc (from (new, anchored))),
      )
      | inl h ↦
          let (new, anchored) = to h in
          (
            λ q.
                let (seen, (distinct, others)) = down (rw h at q) in
                let (apart, unseen) = split seen in
                ((new, unseen), ((apart, distinct), (anchored, others))),
            λ ((_, unseen), ((apart, distinct), (_, others))).
                rw h (up (join (apart, unseen), (distinct, others))),
          )
    ]

None-in : (xs : List CandidateAttempt) → All (λ a. has [] (anchor_of a) ≡ false) xs
None-in [] = tt
None-in (x ∷ xs) = (refl, None-in xs)

-- With the decision of each install at hand, the check passes exactly if no two of the installs
-- that count (accepted and unique) are of one installation of a tenant's app, each reinstall or
-- redownload among them names the installation of one of them that is not its own, and each
-- other names no prior installation.
pub assert_installation_anchors_iff :
    (dg : Digests) (attempts : List CandidateAttempt) (decisions : Decisions)
    (installs : List CandidateAttempt)
    → filter_counted dg decisions is_install attempts ≡ ok installs
    → (assert_installation_anchors dg attempts decisions ≡ ok tt)
      ↔ (HasDistinctAnchors installs × All (IsAnchored installs) installs)
unfolding assert_installation_anchors
assert_installation_anchors_iff dg attempts decisions installs counted =
    let (to, from) = check_anchors-ok installs installs [] in
    rw counted (λ h. (to h).1, λ k. from (None-in installs, k))
