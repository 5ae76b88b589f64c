-- ===== src/Money.antt =====
-- Amounts of money in packages/attribution-core/src/evaluator.ts: `roundHalfEven`, `convertMoney` and
-- `scaleMoney`. An amount is a whole number of units of a decimal scale; the texts of whole numbers
-- that `BigInt` reads are integers here.
pub mod Laws
mod Tests
use open_mmp.Common.{
  ℕ, ◌+◌, ◌-◌, ◌*◌, ◌/◌, ◌%◌, ◌^◌, Bool, true, false, ◌&&◌, ◌||◌, List, [], ◌∷◌, Option, none, some,
  String, str_eq, ltb, leb, ◌==◌, find, if◌then◌else◌, Outcome, ok, throw, ℤ, pos, negsuc, abs_ℤ,
  is_negative, neg_ℕ, ◌*ℤ◌,
}

pub data Error : Type 0 where
  denominator_must_be_positive : Error
  missing_rate : String → Error

-- The quotient of the magnitudes.
unfoldable pub round_magnitude : ℕ → ℕ → ℕ
round_magnitude absolute denominator =
    let quotient = absolute / denominator in
    let twice = absolute % denominator * 2 in
    if ltb denominator twice || (twice == denominator && (quotient % 2 == 1))
    then quotient + 1
    else quotient

abbrev pub with_sign : Bool → ℕ → ℤ
with_sign true n = neg_ℕ n
with_sign false n = pos n

unfoldable pub round_half_even : ℤ → ℤ → Outcome Error ℤ
round_half_even numerator (negsuc d) = throw denominator_must_be_positive
round_half_even numerator (pos d) =
    if d == 0
    then throw denominator_must_be_positive
    else ok (with_sign (is_negative numerator) (round_magnitude (abs_ℤ numerator) d))

pub record Amount : Type 0 where
  pub currency : String
  pub amount_unscaled : ℤ
  pub amount_scale : ℕ

pub record FxRate : Type 0 where
  pub currency : String
  pub rate_unscaled : ℤ
  pub rate_scale : ℕ

pub record FxPolicy : Type 0 where
  pub target_scale : ℕ
  pub rates : List FxRate

abbrev pub rate_for : FxPolicy → String → Option FxRate
rate_for policy currency = find (λ r. str_eq r.currency currency) policy.rates

abbrev pub numerator_of : Amount → FxRate → ℕ → ℤ
numerator_of amount rate target_scale =
    amount.amount_unscaled *ℤ rate.rate_unscaled *ℤ pos (10 ^ target_scale)

abbrev pub at_rate : Amount → ℕ → Option FxRate → Outcome Error ℤ
at_rate amount target_scale none = throw (missing_rate amount.currency)
at_rate amount target_scale (some rate) =
    round_half_even (numerator_of amount rate target_scale)
      (pos (10 ^ (amount.amount_scale + rate.rate_scale)))

unfoldable pub convert_money : Amount → FxPolicy → Outcome Error ℤ
convert_money amount policy = at_rate amount policy.target_scale (rate_for policy amount.currency)

-- To a coarser scale the amount is rounded, to a finer one it is multiplied.
unfoldable pub scale_money : Amount → ℕ → Outcome Error ℤ
scale_money amount target_scale =
    if leb amount.amount_scale target_scale
    then ok (amount.amount_unscaled *ℤ pos (10 ^ (target_scale - amount.amount_scale)))
    else round_half_even amount.amount_unscaled (pos (10 ^ (amount.amount_scale - target_scale)))
