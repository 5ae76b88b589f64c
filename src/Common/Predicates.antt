-- ===== src/Common/Predicates.antt =====
-- What holds of every element of a list.
use mathlib.Core.Path.{◌≡◌}
use mathlib.Core.Logic.{inl, inr}
use mathlib.Core.Bool.{Bool, true}
use mathlib.Core.List.{List, [], ◌∷◌, ◌++◌}
use mathlib.Core.Option.{some}
use native.Mathlib.Omega.{arith}
use open_mmp.Common.Dictionary.{lookup, insert, remove}
use open_mmp.Common.Equality.{Eq}
use open_mmp.Common.Lists.{filter}
use open_mmp.Common.Tests.{Bool-cases}

module _ {ℓ κ} {A : Type ℓ} (P : A → Type κ) where
  abbrev pub All : List A → Type κ
  All [] = Unit
  All (x ∷ xs) = P x × All xs

  pub All-append : (xs ys : List A) → All xs → All ys → All (xs ++ ys)
  All-append [] ys h k = k
  All-append (x ∷ xs) ys (p, h) k = (p, All-append xs ys h k)

  pub All-filter : (t : A → Bool) (xs : List A) → All xs → All (filter t xs)
  All-filter t [] h = tt
  All-filter t (x ∷ xs) (p, h) = elim (Bool-cases (t x)) [
    | inl e ↦ rw e (p, All-filter t xs h)
    | inr e ↦ rw e (All-filter t xs h)
  ]

  pub All-filter_test :
      (t : A → Bool) (xs : List A) → ((x : A) → t x ≡ true → P x) → All (filter t xs)
  All-filter_test t [] f = tt
  All-filter_test t (x ∷ xs) f = elim (Bool-cases (t x)) [
    | inl e ↦ rw e (f x e, All-filter_test t xs f)
    | inr e ↦ rw e (All-filter_test t xs f)
  ]

pub All-map {ℓ κ μ} :
    {A : Type ℓ} (P : A → Type κ) (Q : A → Type μ) (xs : List A)
    → ((x : A) → P x → Q x)
    → All P xs
    → All Q xs
All-map P Q [] f h = tt
All-map P Q (x ∷ xs) f (p, h) = (f x p, All-map P Q xs f h)

-- What holds of the values of a dictionary.
module _ {ℓ κ μ} {K : Type ℓ} ⦃e : Eq K⦄ {V : Type κ} (P : V → Type μ) where
  abbrev pub Values : List (K × V) → Type μ
  Values [] = Unit
  Values ((k, v) ∷ m) = P v × Values m

  pub lookup-Values : (k : K) (v : V) (m : List (K × V)) → Values m → lookup k m ≡ some v → P v
  lookup-Values k v [] h q = cc
  lookup-Values k v ((j, w) ∷ m) (p, h) q = ground (arith, lookup-Values k v m h)

  pub insert-Values : (k : K) (v : V) (m : List (K × V)) → P v → Values m → Values (insert k v m)
  insert-Values k v [] p h = (p, tt)
  insert-Values k v ((j, w) ∷ m) p (q, h) = elim (Bool-cases (e.beq j k)) [
    | inl r ↦ rw r (p, h)
    | inr r ↦ rw r (q, insert-Values k v m p h)
  ]

  pub remove-Values : (k : K) (m : List (K × V)) → Values m → Values (remove k m)
  remove-Values k [] h = tt
  remove-Values k ((j, w) ∷ m) (q, h) = elim (Bool-cases (e.beq j k)) [
    | inl r ↦ rw r h
    | inr r ↦ rw r (q, remove-Values k m h)
  ]

  pub filter-Values : (t : K × V → Bool) (m : List (K × V)) → Values m → Values (filter t m)
  filter-Values t [] h = tt
  filter-Values t ((j, w) ∷ m) (q, h) = elim (Bool-cases (t (j, w))) [
    | inl r ↦ rw r (q, filter-Values t m h)
    | inr r ↦ rw r (filter-Values t m h)
  ]
