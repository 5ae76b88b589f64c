-- ===== src/Money/Tests.antt =====
-- Conversions, and the rounding of halves.
use open_mmp.Common.{◌+◌, ◌^◌, ◌≡◌, refl, [], ◌∷◌, ok, throw, ℤ, pos, negsuc}
use open_mmp.Money.{
  missing_rate, round_magnitude, round_half_even, Amount, FxRate, FxPolicy, numerator_of,
  convert_money, scale_money,
}
use open_mmp.Money.Laws.{IsRounded, convert_money-IsRounded}

converting : Unit {0}
unfolding round_magnitude round_half_even convert_money scale_money
converting = tt

-- 2.5 and 3.5 and -2.5 and 2.6, in tenths.
rounding_tests :
    (round_half_even (pos 25) (pos 10) ≡ ok (pos 2))
    × (round_half_even (pos 35) (pos 10) ≡ ok (pos 4))
    × (round_half_even (negsuc 24) (pos 10) ≡ ok (negsuc 1))
    × (round_half_even (pos 26) (pos 10) ≡ ok (pos 3))
unfolding converting
rounding_tests = (refl, refl, refl, refl)

abbrev yen : FxRate
yen = record { currency = "JPY"; rate_unscaled = pos 67; rate_scale = 4 }

abbrev policy : FxPolicy
policy = record { target_scale = 2; rates = yen ∷ [] }

abbrev fee : Amount
fee = record { currency = "JPY"; amount_unscaled = pos 150; amount_scale = 0 }

-- 150 yen at 0.0067 are 1.005, which goes to the even cent.
convert_tests :
    (convert_money fee policy ≡ ok (pos 100))
    × (convert_money (record fee { currency = "EUR" }) policy ≡ throw (missing_rate "EUR"))
unfolding converting
convert_tests = (refl, refl)

convert_money-IsRounded_example :
    (q : ℤ) × (convert_money fee policy ≡ ok q)
    × IsRounded (numerator_of fee yen 2) (10 ^ (0 + 4)) q
convert_money-IsRounded_example = convert_money-IsRounded fee policy yen refl
