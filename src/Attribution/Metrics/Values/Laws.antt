-- ===== src/Attribution/Metrics/Values/Laws.antt =====
-- The activity of a cohort is at most all of it, and revenue of installations that fraud excludes does not count.
use mathlib.Core.List.{Memᴰ}
use mathlib.Core.List.Memᴰ
use mathlib.Core.Path.{subst}
use open_mmp.Attribution.Errors.{time}
use native.Mathlib.Nat.{mul-le-mul_right}
use open_mmp.Common.{
  leb, leb→le, ℕ, ◌+◌, ◌*◌, ◌≤◌, ◌<◌, ◌≡◌, refl, sym, ap, ◌∙◌, inl, inr, Bool, true, false, not,
  List, [], ◌∷◌, ◌++◌, Option, none, some, opt_eq, opt_eq_iff, optional_eq, String, ◌⊎◌, any,
  filter, length, ◌==◌, Bool-cases, arith, Outcome, ok, throw, ◌>>=◌, >>=-eq-ok, ℤ, pos,
}
use open_mmp.Common.Unique.{unique, length-unique-le}
use open_mmp.Common.Members.{map-Memᴰ, find-Memᴰ}
use open_mmp.Money
use open_mmp.Money.Laws.{distance, round_magnitude-nearest}
use open_mmp.Money.{FxPolicy, round_half_even, round_magnitude}
use open_mmp.Attribution.Types.{CandidateAttempt}
use open_mmp.Attribution.Metrics.Definitions.{MetricDefinition}
use open_mmp.Attribution.Metrics.Values.{
  RunError, Excluded, is_excluded, eligible_installs, is_installation_of, installation_for,
  add_revenue, revenue_value, installation_ids, cohort_size, of_attribution, is_on_day, active_of,
  active_ids, is_activity, scale_factor, activity_value, MetricValue, defined, undefined,
  UndefinedReason, of_money,
}

excluded-same :
    (excluded : Excluded) (item candidate : CandidateAttempt)
    → is_installation_of item candidate ≡ true
    → is_excluded excluded candidate ≡ is_excluded excluded item
excluded-same excluded item candidate h =
    let same : opt_eq candidate.event.payload.installation_id item.event.payload.installation_id
        ≡ true =
      ground (arith, h) in
    ap (λ o. any (λ id. opt_eq id o) excluded) ((opt_eq_iff _ _).0 same)

-- An excluded installation is not found among those that are left.
excluded-not_found :
    (excluded : Excluded) (item : CandidateAttempt) (installs : List CandidateAttempt)
    → is_excluded excluded item ≡ true
    → installation_for (filter (λ a. not (is_excluded excluded a)) installs) item ≡ none
excluded-not_found excluded item [] h = refl
excluded-not_found excluded item (a ∷ installs) h =
    let rest = excluded-not_found excluded item installs h in
    elim (Bool-cases (is_excluded excluded a)) [
      | inl t ↦ rw t rest
      | inr t ↦ elim (Bool-cases (is_installation_of item a)) [
        | inl u ↦ absurd (let e = excluded-same excluded item a u in cc)
        | inr u ↦ rw (t, u) rest
      ]
    ]

ok-eq {ℓ} : {A : Type ℓ} {a b : A} → ◌≡◌ {A = Outcome RunError A} (ok a) (ok b) → a ≡ b
ok-eq {a} h = ap (λ o. elim o [ ok x ↦ x | throw _ ↦ a ]) h

Memᴰ-append :
    (xs ys : List (Option String)) (x : Option String) → Memᴰ x (xs ++ ys) → Memᴰ x xs ⊎ Memᴰ x ys
Memᴰ-append [] ys x m = inr m
Memᴰ-append (y ∷ xs) ys x (Memᴰ.head e) = inl (Memᴰ.head e)
Memᴰ-append (y ∷ xs) ys x (Memᴰ.tail m) = elim (Memᴰ-append xs ys x m) [
  | inl n ↦ inl (Memᴰ.tail n)
  | inr n ↦ inr n
]

bind_congr :
    (o : Outcome RunError ℤ) (f g : ℤ → Outcome RunError ℤ)
    → ((x : ℤ) → f x ≡ g x)
    → (o >>= f) ≡ (o >>= g)
bind_congr (ok x) f g h = h x
bind_congr (throw e) f g h = refl

-- Events whose installation is not there do not count.
revenue_value-absent :
    (d : MetricDefinition) (fx : FxPolicy) (p : CandidateAttempt → Bool)
    (installs : List CandidateAttempt) (sum : ℤ) (revenue : List CandidateAttempt)
    → ((a : CandidateAttempt) → p a ≡ true → installation_for installs a ≡ none)
    → revenue_value d fx installs sum revenue
      ≡ revenue_value d fx installs sum (filter (λ a. not (p a)) revenue)
unfolding revenue_value
revenue_value-absent d fx p installs sum [] h = refl
revenue_value-absent d fx p installs sum (item ∷ revenue) h = elim (Bool-cases (p item)) [
  | inl t ↦ rw (t, h item t) (revenue_value-absent d fx p installs sum revenue h)
  | inr t ↦ rw t (
      bind_congr (add_revenue d fx item sum (installation_for installs item)) _ _
        (λ next. revenue_value-absent d fx p installs next revenue h))
]

-- With the policy that leaves fraud out, the revenue of a metric is that of the events of installations that fraud does not exclude:
-- without the others its value, or what it throws, is the same.
pub revenue_value-net :
    (d : MetricDefinition) (fx : FxPolicy) (excluded : Excluded) (installs : List CandidateAttempt)
    (sum : ℤ) (revenue : List CandidateAttempt)
    → d.fraud_net ≡ true
    → revenue_value d fx (eligible_installs d excluded installs) sum revenue
      ≡ revenue_value d fx
          (eligible_installs d excluded installs)
          sum
          (filter (λ a. not (is_excluded excluded a)) revenue)
unfolding eligible_installs
revenue_value-net d fx excluded installs sum revenue n = simp n (
    revenue_value-absent d fx (is_excluded excluded)
      (filter (λ a. not (is_excluded excluded a)) installs) sum revenue
      (λ a t. excluded-not_found excluded a installs t))

active_of-Memᴰ :
    (d : MetricDefinition) (session : CandidateAttempt) (o : Option CandidateAttempt)
    (installs : List CandidateAttempt) (ids : List (Option String)) (id : Option String)
    → ((a : CandidateAttempt) → o ≡ some a → Memᴰ a installs)
    → active_of d session o ≡ ok ids
    → Memᴰ id ids
    → Memᴰ id (installation_ids installs)
active_of-Memᴰ d session none installs ids id found h m =
    elim (subst (Memᴰ id) (sym (ok-eq h)) m) [ ]
active_of-Memᴰ d session (some a) installs ids id found h m =
    let (seen, _, h1) =
      >>=-eq-ok (of_attribution (time (some session.event.occurred_at) "occurred_at")) _ h in
    let (installed, _, h2) =
      >>=-eq-ok (of_attribution (time (some a.event.occurred_at) "occurred_at")) _ h1 in
    let n = subst (Memᴰ id) (sym (ok-eq h2)) m in
    elim (Bool-cases (is_on_day d.window_day installed seen)) [
      | inl t ↦ elim (Memᴰ.cases_cons (rw t at n)) [
        | inl e ↦
            subst (λ x. Memᴰ x (installation_ids installs)) (sym e)
              (map-Memᴰ (λ b. b.event.payload.installation_id) installs a (found a refl))
        | inr k ↦ elim k [ ]
      ]
      | inr t ↦ elim (rw t at n) [ ]
    ]

-- The active installations are among those that were looked up.
active_ids-Memᴰ :
    (d : MetricDefinition) (installs sessions : List CandidateAttempt) {ids : List (Option String)}
    (id : Option String)
    → active_ids d installs sessions ≡ ok ids
    → Memᴰ id ids
    → Memᴰ id (installation_ids installs)
unfolding active_ids
active_ids-Memᴰ d installs [] id h m = elim (subst (Memᴰ id) (sym (ok-eq h)) m) [ ]
active_ids-Memᴰ d installs (session ∷ sessions) id h m =
    let (first, here, h1) =
      >>=-eq-ok (active_of d session (installation_for installs session)) _ h in
    let (rest, there, h2) = >>=-eq-ok (active_ids d installs sessions) _ h1 in
    elim (Memᴰ-append first rest id (subst (Memᴰ id) (sym (ok-eq h2)) m)) [
      | inl n ↦
          active_of-Memᴰ d session (installation_for installs session) installs first id
            (λ a e. (find-Memᴰ (is_installation_of session) installs a e).0) here n
      | inr n ↦ active_ids-Memᴰ d installs sessions id there n
    ]

of_money-ok : (o : Outcome Money.Error ℤ) {v : ℤ} → of_money o ≡ ok v → o ≡ ok v
of_money-ok (ok x) h = ap ok (ok-eq h)
of_money-ok (throw e) h = cc

defined-eq : {a b : ℤ} → defined a ≡ defined b → a ≡ b
defined-eq {a} h = ap (λ v. elim v [ defined x ↦ x | undefined _ ↦ a ]) h

undefined-ne :
    {r : UndefinedReason} {v : ℤ}
    → ◌≡◌ {A = Outcome RunError MetricValue} (ok (undefined r)) (ok (defined v))
    → ⊥
undefined-ne h = cc

-- A share of a whole, rounded, is at most the whole.
share-le : (a c f m : ℕ) → a ≤ c → 0 < c → 2 * distance (a * f) (m * c) ≤ c → m ≤ f
share-le a c f m h p near =
    let whole : a * f ≤ c * f = mul-le-mul_right f h in
    elim (Bool-cases (leb m f)) [
      | inl t ↦ leb→le m f t
      | inr t ↦
          let more : (f + 1) * c ≤ m * c = mul-le-mul_right c (ground (arith, t)) in
          let split : (f + 1) * c ≡ c * f + c = grind arith in absurd (omega arith)
    ]

rounded_share :
    (a c f : ℕ) {v : ℤ}
    → a ≤ c
    → 0 < c
    → round_half_even (pos (a * f)) (pos c) ≡ ok v
    → (n : ℕ) × (v ≡ pos n) × (n ≤ f)
unfolding round_half_even
rounded_share a c f {v} h p e =
    let m = round_magnitude (a * f) c in
    let same : (c == 0) ≡ false = ground (arith, p) in
    let value = ap (λ o. elim o [ ok x ↦ x | throw _ ↦ v ]) (rw same at e) in
    (
      m,
      sym value ∙ ap (λ k. pos (round_magnitude k c)) (omega arith),
      share-le a c f m h p (round_magnitude-nearest (a * f) c p).0,
    )

-- With the cohort of all installs of the group, the activity of a metric is at most one.
pub activity_value-bounded :
    (d : MetricDefinition) (installs activities : List CandidateAttempt) {v : ℤ}
    → activity_value d installs (cohort_size installs) activities ≡ ok (defined v)
    → (n : ℕ) × (v ≡ pos n) × (n ≤ scale_factor d)
unfolding activity_value cohort_size
activity_value-bounded d installs activities {v} h =
    let cohort = length (unique ⦃e = optional_eq⦄ (installation_ids installs)) in
    elim (Bool-cases (cohort == 0)) [
      | inl t ↦ absurd (undefined-ne (rw t at h))
      | inr t ↦
          let (ids, listed, h1) =
            >>=-eq-ok (active_ids d installs (filter (is_activity d) activities)) _ (rw t at h) in
          let active = length (unique ⦃e = optional_eq⦄ ids) in
          let (value, rounded, h2) =
            >>=-eq-ok (of_money (round_half_even (pos (active * scale_factor d)) (pos cohort))) _
              h1 in
          let fewer =
            length-unique-le ⦃e = optional_eq⦄ ids (installation_ids installs) (λ id m.
              active_ids-Memᴰ d installs (filter (is_activity d) activities) id listed m) in
          let (n, same, le) =
            rounded_share active cohort (scale_factor d) fewer (ground (arith, t))
              (of_money-ok _ rounded) in
          (n, sym (defined-eq (ok-eq h2)) ∙ same, le)
    ]
