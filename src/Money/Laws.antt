-- ===== src/Money/Laws.antt =====
-- What the rounding of amounts comes to.
use native.Mathlib.Nat.{mod-lt, div-add-mod, one-le-pow, mul-div_cancel, mul-mod_left}
use open_mmp.Common.{
  ℕ, zero, suc, ◌+◌, ◌-◌, ◌*◌, ◌/◌, ◌%◌, ◌^◌, ◌≤◌, ◌<◌, ◌≡◌, ap, inl, inr, refl, true, false, ◌&&◌,
  ◌||◌, some, ltb, leb, ◌==◌, if◌then◌else◌, ok, arith, Bool-cases, ℤ, pos, negsuc, abs_ℤ,
  is_negative, neg_ℕ, ◌*ℤ◌, pos_part, neg_part,
}
use open_mmp.Money.{
  round_magnitude, with_sign, round_half_even, Amount, FxRate, FxPolicy, rate_for, numerator_of,
  convert_money, scale_money,
}

-- The distance of two numbers.
abbrev pub distance : ℕ → ℕ → ℕ
distance a b = (a - b) + (b - a)

-- The distance of n from q · d, for integers n and q: of n⁺ + q⁻ · d from n⁻ + q⁺ · d.
abbrev pub remainder : ℤ → ℕ → ℤ → ℕ
remainder n d q = distance (pos_part n + neg_part q * d) (neg_part n + pos_part q * d)

-- q is n / d rounded to the nearest integer, and to the even one of two that are equally near.
pub record IsRounded (n : ℤ) (d : ℕ) (q : ℤ) : Type 0 where
  pub nearest : 2 * remainder n d q ≤ d
  pub even : 2 * remainder n d q ≡ d → abs_ℤ q % 2 ≡ 0

-- The choice between a quotient and the next one, by the remainder.
choice :
    (a d q r : ℕ)
    → d * q + r ≡ a
    → r < d
    → (2 * distance a ((if ltb d (r * 2) || (r * 2 == d && (q % 2 == 1)) then q + 1 else q) * d)
        ≤ d)
      × (2 * distance a ((if ltb d (r * 2) || (r * 2 == d && (q % 2 == 1)) then q + 1 else q) * d)
            ≡ d
          → (if ltb d (r * 2) || (r * 2 == d && (q % 2 == 1)) then q + 1 else q) % 2 ≡ 0)
choice a d q r e lt = elim (Bool-cases (ltb d (r * 2) || (r * 2 == d && (q % 2 == 1)))) [
  | inl t ↦ rw t (ground arith, λ h. ground arith)
  | inr t ↦ rw t (ground arith, λ h. ground arith)
]

pub round_magnitude-nearest :
    (a d : ℕ)
    → 0 < d
    → (2 * distance a (round_magnitude a d * d) ≤ d)
      × (2 * distance a (round_magnitude a d * d) ≡ d → round_magnitude a d % 2 ≡ 0)
unfolding round_magnitude
round_magnitude-nearest a d p = choice a d (a / d) (a % d) (div-add-mod a d) (mod-lt a p)

signed :
    (n : ℤ) (d m : ℕ)
    → (remainder n d (with_sign (is_negative n) m) ≡ distance (abs_ℤ n) (m * d))
      × (abs_ℤ (with_sign (is_negative n) m) ≡ m)
signed (pos a) d m = (ground arith, ground arith)
signed (negsuc a) d zero = (ground arith, ground arith)
signed (negsuc a) d (suc m) = (ground arith, ground arith)

-- Division by a positive denominator gives the nearest integer, of two equally near ones the even
-- one, for negative numerators too.
pub round_half_even-IsRounded :
    (n : ℤ) (d : ℕ) → 0 < d → (q : ℤ) × (round_half_even n (pos d) ≡ ok q) × IsRounded n d q
unfolding round_half_even
round_half_even-IsRounded n d p =
    let m = round_magnitude (abs_ℤ n) d in
    let (same, magnitude) = signed n d m in
    let (near, even) = round_magnitude-nearest (abs_ℤ n) d p in
    (
      with_sign (is_negative n) m,
      ground arith,
      record { nearest = rw same near; even = λ h. rw magnitude (even (rw same at h)) },
    )

-- With a rate for its currency an amount converts: to amount · rate · 10^target over
-- 10^(scale + rate's scale), rounded to the nearest integer, of two equally near ones to the even
-- one.
pub convert_money-IsRounded :
    (amount : Amount) (policy : FxPolicy) (rate : FxRate)
    → rate_for policy amount.currency ≡ some rate
    → (q : ℤ) × (convert_money amount policy ≡ ok q)
      × IsRounded
          (numerator_of amount rate policy.target_scale)
          (10 ^ (amount.amount_scale + rate.rate_scale))
          q
unfolding convert_money
convert_money-IsRounded amount policy rate found =
    let (q, h, rounded) =
      round_half_even-IsRounded (numerator_of amount rate policy.target_scale)
        (10 ^ (amount.amount_scale + rate.rate_scale))
        (one-le-pow (amount.amount_scale + rate.rate_scale) 10 (omega arith)) in
    (q, rw found h, rounded)

round_magnitude-product : (m k : ℕ) → 0 < k → round_magnitude (m * k) k ≡ m
unfolding round_magnitude
round_magnitude-product m k p = rw (mul-div_cancel m p, mul-mod_left m k) (ground arith)

product_sign :
    (u : ℤ) (k : ℕ)
    → 0 < k
    → (is_negative (u *ℤ pos k) ≡ is_negative u) × (abs_ℤ (u *ℤ pos k) ≡ abs_ℤ u * k)
product_sign (pos a) k p = (ground arith, ground arith)
product_sign (negsuc a) (suc k) p = (ground arith, ground arith)
product_sign (negsuc a) zero p = (ground arith, ground arith)

with_sign-abs : (u : ℤ) → with_sign (is_negative u) (abs_ℤ u) ≡ u
with_sign-abs (pos a) = ground arith
with_sign-abs (negsuc a) = let e : 0 + suc a ≡ suc a = omega arith in ap neg_ℕ e

-- An integer times a positive number is divided by it again without a remainder.
round_product : (u : ℤ) (k : ℕ) → 0 < k → round_half_even (u *ℤ pos k) (pos k) ≡ ok u
unfolding round_half_even
round_product u k p =
    let (sign, magnitude) = product_sign u k p in
    let whole = round_magnitude-product (abs_ℤ u) k p in
    let nonzero : (k == 0) ≡ false = ground arith in
    rw (nonzero, sign, magnitude, whole, with_sign-abs u) refl

times_one : (u : ℤ) → u *ℤ pos (10 ^ 0) *ℤ pos (10 ^ 0) ≡ u
times_one (pos a) = ground arith
times_one (negsuc a) = ground arith

-- An amount scaled to a finer scale, or to its own, and then back is what it was.
pub scale_money-back :
    (amount : Amount) (target_scale : ℕ)
    → amount.amount_scale ≤ target_scale
    → (q : ℤ) × (scale_money amount target_scale ≡ ok q)
      × (scale_money
            (record amount { amount_unscaled = q; amount_scale = target_scale })
            amount.amount_scale
          ≡ ok amount.amount_unscaled)
unfolding scale_money
scale_money-back amount target le =
    let u = amount.amount_unscaled in
    let finer : leb amount.amount_scale target ≡ true = ground arith in
    let q = u *ℤ pos (10 ^ (target - amount.amount_scale)) in
    (
      q,
      rw finer refl,
      elim (Bool-cases (leb target amount.amount_scale)) [
        | inr t ↦ rw t (
            round_product u (10 ^ (target - amount.amount_scale))
              (one-le-pow (target - amount.amount_scale) 10 (omega arith)))
        | inl t ↦
            let same : target ≡ amount.amount_scale = ground arith in
            let up : target - amount.amount_scale ≡ 0 = omega arith in
            let down : amount.amount_scale - target ≡ 0 = omega arith in
            rw (t, up, down) (ap ok (times_one u))
      ],
    )
