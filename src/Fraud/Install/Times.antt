-- ===== src/Fraud/Install/Times.antt =====
-- The tests of the rules as facts about instants.
use open_mmp.Common.{
  ℕ, suc, ◌*◌, refl, ltb, ltb→lt, lt→ltb, ◌||◌, ◌+◌, ◌≤◌, ◌<◌, ◌≡◌, ◌↔◌, ◌⊎◌, inl, inr, true,
  Option, none, some, String, truthy, arith, Option-cases,
}
use open_mmp.Attribution.Install.Timely.{truthy_of_instant}
use open_mmp.Fraud.Value.{Number, ratio, minus, is_within, is_apart}
use open_mmp.Fraud.Install.{instant, is_sooner, is_before, is_since, diverge}

-- Two texts are timestamps whose instants are so related.
abbrev pub Timed : Option String → Option String → (ℕ → ℕ → Type 0) → Type 0
Timed s t P = (a b : ℕ) × (instant s ≡ some a) × (instant t ≡ some b) × P a b

pub instant-truthy : (s : Option String) {t : ℕ} → instant s ≡ some t → truthy s ≡ true
instant-truthy none h = cc
instant-truthy (some s) h = truthy_of_instant s h

-- The tests as facts about instants.
pub is_before_iff :
    (s t : Option String) (span : ℕ)
    → (is_before (instant s) (instant t) span ≡ true) ↔ Timed t s (λ b a. a < b + span)
is_before_iff s t span = elim (Option-cases (instant s)) [
  | inl e ↦ (λ h. cc (rw e at h), λ (b, a, hb, ha, lt). cc)
  | inr (x, e) ↦ elim (Option-cases (instant t)) [
    | inl f ↦ (λ h. cc (rw (e, f) at h), λ (b, a, hb, ha, lt). cc)
    | inr (y, f) ↦ (
      λ h. (y, x, f, e, ground (arith, rw (e, f) at h)),
      λ (b, a, hb, ha, lt). rw (ha, hb) (ground arith),
    )
  ]
]

pub is_since_iff :
    (s t : Option String) (span : ℕ)
    → (is_since (instant s) (instant t) span ≡ true) ↔ Timed t s (λ b a. b + span ≤ a)
is_since_iff s t span = elim (Option-cases (instant s)) [
  | inl e ↦ (λ h. cc (rw e at h), λ (b, a, hb, ha, lt). cc)
  | inr (x, e) ↦ elim (Option-cases (instant t)) [
    | inl f ↦ (λ h. cc (rw (e, f) at h), λ (b, a, hb, ha, lt). cc)
    | inr (y, f) ↦ (
      λ h. (y, x, f, e, ground (arith, rw (e, f) at h)),
      λ (b, a, hb, ha, lt). rw (ha, hb) (ground arith),
    )
  ]
]

-- `a - b` is less than so many seconds, cross-multiplied: `n / d` of them, or `- n / d`.
abbrev pub Within : Number → ℕ → ℕ → Type 0
Within (ratio over under) a b = a * suc under < b * suc under + over * 1000
Within (minus over under) a b = a * suc under + suc over * 1000 < b * suc under

-- The instants are further apart than so many seconds: any are, where these are negative.
abbrev pub Apart : Number → ℕ → ℕ → Type 0
Apart (ratio over under) a b =
    (b * suc under + over * 1000 < a * suc under) ⊎ (a * suc under + over * 1000 < b * suc under)
Apart (minus over under) a b = Unit {0}

ltb_iff : (a b : ℕ) → (ltb a b ≡ true) ↔ (a < b)
ltb_iff a b = (ltb→lt a b, lt→ltb a b)

either_iff : (a b c d : ℕ) → ((ltb a b || ltb c d) ≡ true) ↔ ((a < b) ⊎ (c < d))
either_iff a b c d = ground arith

is_within_iff : (s : Number) (a b : ℕ) → (is_within 1000 s a b ≡ true) ↔ Within s a b
is_within_iff (ratio over under) a b = ltb_iff (a * suc under) (b * suc under + over * 1000)
is_within_iff (minus over under) a b = ltb_iff (a * suc under + suc over * 1000) (b * suc under)

is_apart_iff : (s : Number) (a b : ℕ) → (is_apart 1000 s a b ≡ true) ↔ Apart s a b
is_apart_iff (ratio over under) a b =
    either_iff (b * suc under + over * 1000) (a * suc under) (a * suc under + over * 1000)
      (b * suc under)
is_apart_iff (minus over under) a b = (λ _. tt, λ _. refl)

pub is_sooner_iff :
    (s t : Option String) (seconds : Number)
    → (is_sooner (instant s) (instant t) seconds ≡ true) ↔ Timed t s (λ b a. Within seconds a b)
is_sooner_iff s t seconds = elim (Option-cases (instant s)) [
  | inl e ↦ (λ h. cc (rw e at h), λ (b, a, hb, ha, lt). cc)
  | inr (x, e) ↦ elim (Option-cases (instant t)) [
    | inl f ↦ (λ h. cc (rw (e, f) at h), λ (b, a, hb, ha, lt). cc)
    | inr (y, f) ↦ (
      λ h. (y, x, f, e, (is_within_iff seconds x y).0 (rw (e, f) at h)),
      λ (b, a, hb, ha, lt). rw (ha, hb) ((is_within_iff seconds a b).1 lt),
    )
  ]
]

pub diverge_iff :
    (s t : Option String) (seconds : Number)
    → (diverge (instant s) (instant t) seconds ≡ true) ↔ Timed s t (Apart seconds)
diverge_iff s t seconds = elim (Option-cases (instant s)) [
  | inl e ↦ (λ h. cc (rw e at h), λ (b, a, hb, ha, lt). cc)
  | inr (x, e) ↦ elim (Option-cases (instant t)) [
    | inl f ↦ (λ h. cc (rw (e, f) at h), λ (b, a, hb, ha, lt). cc)
    | inr (y, f) ↦ (
      λ h. (x, y, e, f, (is_apart_iff seconds x y).0 (rw (e, f) at h)),
      λ (a, b, ha, hb, lt). rw (ha, hb) ((is_apart_iff seconds a b).1 lt),
    )
  ]
]

pub Timed-truthy :
    (s t : Option String) (P : ℕ → ℕ → Type 0) → Timed s t P → (truthy s ≡ true) × (truthy t ≡ true)
Timed-truthy s t P (a, b, ha, hb, p) = (instant-truthy s ha, instant-truthy t hb)
