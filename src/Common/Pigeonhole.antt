-- ===== src/Common/Pigeonhole.antt =====
-- A list with the length of one without repetition, and all of its elements, is that list up to order.
use mathlib.Core.Path.{◌≡◌, refl, sym, ap, ◌∙◌}
use mathlib.Core.Logic.{◌↔◌, ◌≢◌, inl, inr}
use mathlib.Core.List.{List, [], ◌∷◌, Memᴰ, Permᴰ}
use mathlib.Core.List.Memᴰ
use mathlib.Core.List.Permᴰ
use native.Mathlib.Omega.{arith}
use Prim.Native.Nat.{suc, ◌≤◌}
use open_mmp.Common.Lists.{length}
use open_mmp.Common.Sorting.{Memᴰ-Permᴰ}

module _ {ℓ} {A : Type ℓ} where
  abbrev pub AllDistinct : List A → Type ℓ
  AllDistinct [] = Unit
  AllDistinct (x ∷ xs) = ((y : A) → Memᴰ y xs → x ≢ y) × AllDistinct xs

  length-Permᴰ : {xs ys : List A} → Permᴰ xs ys → length xs ≡ length ys
  length-Permᴰ Permᴰ.nil = refl
  length-Permᴰ (Permᴰ.cons e p) = ap suc (length-Permᴰ p)
  length-Permᴰ (Permᴰ.swap e f) = refl
  length-Permᴰ (Permᴰ.trans p q) = length-Permᴰ p ∙ length-Permᴰ q

  -- A member put in front.
  Memᴰ-front : (x : A) (xs : List A) → Memᴰ x xs → (ys : List A) × Permᴰ xs (x ∷ ys)
  Memᴰ-front x [] m = elim m [ ]
  Memᴰ-front x (y ∷ ys) (Memᴰ.head e) = (ys, Permᴰ.cons (sym e) (Permᴰ.refl ys))
  Memᴰ-front x (y ∷ ys) (Memᴰ.tail m) =
      let (zs, p) = Memᴰ-front x ys m in
      (y ∷ zs, Permᴰ.trans (Permᴰ.cons refl p) (Permᴰ.swap refl refl))

  Permᴰ-included :
      (expected xs : List A)
      → AllDistinct expected
      → length xs ≡ length expected
      → ((y : A) → Memᴰ y expected → Memᴰ y xs)
      → Permᴰ xs expected
  Permᴰ-included [] [] d h m = Permᴰ.nil
  Permᴰ-included [] (x ∷ xs) d h m = absurd (omega (arith, h))
  Permᴰ-included (x ∷ expected) xs (apart, d) h m =
      let (ys, p) = Memᴰ-front x xs (m x (Memᴰ.head refl)) in
      let size : length ys ≡ length expected = omega (arith, h, length-Permᴰ p) in
      let inside : (y : A) → Memᴰ y expected → Memᴰ y ys = λ y n.
        elim (Memᴰ.cases_cons (Memᴰ-Permᴰ y p (m y (Memᴰ.tail n)))) [
          | inl e ↦ absurd (apart y n (sym e))
          | inr o ↦ o
        ] in
      Permᴰ.trans p (Permᴰ.cons refl (Permᴰ-included expected ys d size inside))

  -- The two ways to say that a list is a permutation of one without repetition.
  pub included_iff-Permᴰ :
      (expected xs : List A)
      → AllDistinct expected
      → ((length xs ≡ length expected) × ((y : A) → Memᴰ y expected → Memᴰ y xs))
        ↔ Permᴰ xs expected
  included_iff-Permᴰ expected xs d = (
    λ (h, m). Permᴰ-included expected xs d h m,
    λ p. (length-Permᴰ p, λ y m. Memᴰ-Permᴰ y (Permᴰ.symm p) m),
  )

  -- Distinct members of a list are no more than the list is long.
  pub length-included :
      (expected xs : List A)
      → AllDistinct expected
      → ((y : A) → Memᴰ y expected → Memᴰ y xs)
      → length expected ≤ length xs
  length-included [] xs d m = omega arith
  length-included (x ∷ expected) xs (apart, d) m =
      let (ys, p) = Memᴰ-front x xs (m x (Memᴰ.head refl)) in
      let inside : (y : A) → Memᴰ y expected → Memᴰ y ys = λ y n.
        elim (Memᴰ.cases_cons (Memᴰ-Permᴰ y p (m y (Memᴰ.tail n)))) [
          | inl e ↦ absurd (apart y n (sym e))
          | inr o ↦ o
        ] in
      omega (arith, length-included expected ys d inside, length-Permᴰ p)
