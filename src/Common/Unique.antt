-- ===== src/Common/Unique.antt =====
-- `[...new Set(values)]`: each value once, where it stands first.
use Prim.Native.Nat.{◌≤◌}
use mathlib.Core.Path.{refl, sym}
use mathlib.Core.Logic.{inl, inr}
use mathlib.Core.Bool.{Bool, not}
use mathlib.Core.List.{List, [], ◌∷◌, Memᴰ}
use native.Mathlib.Omega.{arith}
use open_mmp.Common.Equality.{Eq}
use open_mmp.Common.Lists.{length, filter}
use open_mmp.Common.Members.{Memᴰ-filter, filter-Memᴰ}
use open_mmp.Common.Pigeonhole.{AllDistinct, length-included}
use open_mmp.Common.Tests.{Bool-cases}

module _ {ℓ} {A : Type ℓ} ⦃e : Eq A⦄ where
  unfoldable pub unique : List A → List A
  unique [] = []
  unique (x ∷ xs) = x ∷ filter (λ y. not (e.beq y x)) (unique xs)

  pub Memᴰ-unique : (xs : List A) (x : A) → Memᴰ x (unique xs) → Memᴰ x xs
  unfolding unique
  Memᴰ-unique [] x m = m
  Memᴰ-unique (y ∷ ys) x (Memᴰ.head h) = Memᴰ.head h
  Memᴰ-unique (y ∷ ys) x (Memᴰ.tail m) =
      Memᴰ.tail (Memᴰ-unique ys x (Memᴰ-filter (λ z. not (e.beq z y)) (unique ys) x m).0)

  pub unique-Memᴰ : (xs : List A) (x : A) → Memᴰ x xs → Memᴰ x (unique xs)
  unfolding unique
  unique-Memᴰ [] x m = m
  unique-Memᴰ (y ∷ ys) x (Memᴰ.head h) = Memᴰ.head h
  unique-Memᴰ (y ∷ ys) x (Memᴰ.tail m) = elim (Bool-cases (e.beq x y)) [
    | inl t ↦ Memᴰ.head ((e.beq_iff x y).0 t)
    | inr t ↦
        Memᴰ.tail
          (filter-Memᴰ (λ z. not (e.beq z y)) (unique ys) x (unique-Memᴰ ys x m) (rw t refl))
  ]

  filter-AllDistinct : (p : A → Bool) (xs : List A) → AllDistinct xs → AllDistinct (filter p xs)
  filter-AllDistinct p [] d = tt
  filter-AllDistinct p (x ∷ xs) (apart, d) = elim (Bool-cases (p x)) [
    | inl t ↦ rw t (λ y m. apart y (Memᴰ-filter p xs y m).0, filter-AllDistinct p xs d)
    | inr t ↦ rw t (filter-AllDistinct p xs d)
  ]

  pub unique-AllDistinct : (xs : List A) → AllDistinct (unique xs)
  unfolding unique
  unique-AllDistinct [] = tt
  unique-AllDistinct (x ∷ xs) = (
    λ y m h.
        let (_, t) = Memᴰ-filter (λ z. not (e.beq z x)) (unique xs) y m in
        let same = (e.beq_iff y x).1 (sym h) in ground (arith, t, same),
    filter-AllDistinct (λ z. not (e.beq z x)) (unique xs) (unique-AllDistinct xs),
  )

  -- Fewer values in all are fewer different ones.
  pub length-unique-le :
      (xs ys : List A) → ((x : A) → Memᴰ x xs → Memᴰ x ys) → length (unique xs) ≤ length (unique ys)
  length-unique-le xs ys h =
      length-included (unique xs) (unique ys) (unique-AllDistinct xs)
        (λ x m. unique-Memᴰ ys x (h x (Memᴰ-unique xs x m)))
