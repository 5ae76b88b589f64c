-- ===== src/Common/Errors.antt =====
-- A computation that may throw: the result, or the error that leaves it.
use mathlib.Core.Path.{◌≡◌, refl}
use mathlib.Core.Logic.{◌↔◌}

pub data Outcome {ℓ κ} (E : Type ℓ) (A : Type κ) : Type (ℓ ⊔ κ) where
  ok : A → Outcome E A
  throw : E → Outcome E A

infixl 5 ◌>>=◌ ◌>>◌
abbrev pub ◌>>=◌ {ℓ κ μ} :
    {E : Type ℓ} {A : Type κ} {B : Type μ} → Outcome E A → (A → Outcome E B) → Outcome E B
ok a >>= f = f a
throw e >>= f = throw e

abbrev pub ◌>>◌ {ℓ κ} : {E : Type ℓ} {B : Type κ} → Outcome E (Unit {0}) → Outcome E B → Outcome E B
m >> k = m >>= λ _. k

-- Inversion of a block that returned.
pub >>=-eq-ok {ℓ κ μ} :
    {E : Type ℓ} {A : Type κ} {B : Type μ} (o : Outcome E A) (next : A → Outcome E B) {result : B}
    → (o >>= next) ≡ ok result
    → (a : A) × (o ≡ ok a) × (next a ≡ ok result)
>>=-eq-ok (ok a) next h = (a, refl, h)
>>=-eq-ok (throw e) next h = cc

-- A check and what follows it pass exactly if both pass.
pub and_then_iff {ℓ} :
    {E : Type ℓ} (m k : Outcome E (Unit {0})) → ((m >> k) ≡ ok tt) ↔ ((m ≡ ok tt) × (k ≡ ok tt))
and_then_iff (ok tt) k = (λ h. (refl, h), λ (_, h). h)
and_then_iff (throw e) k = (λ h. cc, λ (h, _). cc)
