-- ===== src/Fraud/Install/Seconds.antt =====
-- The number that a base layer states for the divergence of two clicks.
use open_mmp.Common.{◌≡◌, ◌≢◌, ◌⊎◌, inl, inr, refl, sym, Option, none, some, String}
use open_mmp.Fraud.Value.{Number, whole, Value, number}
use open_mmp.Fraud.Bundle.{number_or}

-- The number of seconds that a value states: its own, where it is a finite number, and else 300.
abbrev pub Stated : Option Value → Number → Type 0
Stated found seconds =
    ((printed : String) × (found ≡ some (number seconds printed)))
    ⊎ (((n : Number) (printed : String) → found ≢ some (number n printed)) × (seconds ≡ whole 300))

pub number_or-Stated :
    (found : Option Value) (s : Number) → number_or found (whole 300) ≡ s → Stated found s
number_or-Stated (some (number n printed)) s h = inl (printed, cc h)
number_or-Stated none s h = inr (λ n p e. cc e, sym h)
number_or-Stated (some v) s h = inr (λ n p e. cc e, sym h)

pub Stated-number_or :
    (found : Option Value) (s : Number) → Stated found s → s ≡ number_or found (whole 300)
Stated-number_or (some (number n printed)) s h = elim h [
  | inl (p, e) ↦ cc e
  | inr (never, _) ↦ elim (never n printed refl) [ ]
]
Stated-number_or none s h = elim h [ inl (p, e) ↦ cc e | inr (_, q) ↦ q ]
Stated-number_or (some v) s h = elim h [ inl (p, e) ↦ cc e | inr (_, q) ↦ q ]
