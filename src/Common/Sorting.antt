-- ===== src/Common/Sorting.antt =====
-- `Array.prototype.sort` by a comparison: it is stable, so it is the insertion sort that puts an
-- element before those that are equal to it.
use Prim.Native.Nat.{Ordering, lt, eq, gt}
use mathlib.Core.Path.{◌≡◌, ◌∙◌, refl, ap, sym, subst}
use mathlib.Core.Logic.{◌⊎◌, inl, inr}
use mathlib.Core.Bool.{Bool, true, false}
use mathlib.Core.List.{List, [], ◌∷◌, Memᴰ, Permᴰ}
use mathlib.Core.List.Permᴰ
use native.Mathlib.Omega.{arith}
use open_mmp.Common.Ordering.{IsComparison, flip}
use open_mmp.Common.Tests.{if◌then◌else◌, Bool-cases}

abbrev pub at_most : Ordering → Bool
at_most gt = false
at_most _ = true

Ordering-cases : (o : Ordering) → (o ≡ lt) ⊎ ((o ≡ eq) ⊎ (o ≡ gt))
Ordering-cases lt = inl refl
Ordering-cases eq = inr (inl refl)
Ordering-cases gt = inr (inr refl)

module _ {ℓ} {A : Type ℓ} where
  pub Memᴰ-Permᴰ : {xs ys : List A} (a : A) → Permᴰ xs ys → Memᴰ a xs → Memᴰ a ys
  Memᴰ-Permᴰ a Permᴰ.nil m = m
  Memᴰ-Permᴰ a (Permᴰ.cons e p) (Memᴰ.head q) = Memᴰ.head (q ∙ e)
  Memᴰ-Permᴰ a (Permᴰ.cons e p) (Memᴰ.tail m) = Memᴰ.tail (Memᴰ-Permᴰ a p m)
  Memᴰ-Permᴰ a (Permᴰ.swap e f) (Memᴰ.head q) = Memᴰ.tail (Memᴰ.head (q ∙ e))
  Memᴰ-Permᴰ a (Permᴰ.swap e f) (Memᴰ.tail (Memᴰ.head q)) = Memᴰ.head (q ∙ f)
  Memᴰ-Permᴰ a (Permᴰ.swap e f) (Memᴰ.tail (Memᴰ.tail m)) = Memᴰ.tail (Memᴰ.tail m)
  Memᴰ-Permᴰ a (Permᴰ.trans p q) m = Memᴰ-Permᴰ a q (Memᴰ-Permᴰ a p m)

module _ {ℓ} {A : Type ℓ} (cmp : A → A → Ordering) where
  unfoldable pub insert_sorted : A → List A → List A
  insert_sorted x [] = x ∷ []
  insert_sorted x (y ∷ ys) =
      let rest = insert_sorted x ys in if at_most (cmp x y) then x ∷ y ∷ ys else y ∷ rest

  unfoldable pub sort : List A → List A
  sort [] = []
  sort (x ∷ xs) = insert_sorted x (sort xs)

  -- Each element before those after it.
  abbrev pub IsBelow : A → List A → Type 0
  IsBelow x [] = Unit
  IsBelow x (y ∷ ys) = (at_most (cmp x y) ≡ true) × IsBelow x ys

  abbrev pub IsSorted : List A → Type 0
  IsSorted [] = Unit
  IsSorted (x ∷ xs) = IsBelow x xs × IsSorted xs

  insert_sorted-Permᴰ : (x : A) (ys : List A) → Permᴰ (insert_sorted x ys) (x ∷ ys)
  unfolding insert_sorted
  insert_sorted-Permᴰ x [] = Permᴰ.refl (x ∷ [])
  insert_sorted-Permᴰ x (y ∷ ys) = elim (Bool-cases (at_most (cmp x y))) [
    | inl t ↦ rw t (Permᴰ.refl (x ∷ y ∷ ys))
    | inr t ↦ rw t (Permᴰ.trans (Permᴰ.cons refl (insert_sorted-Permᴰ x ys)) (Permᴰ.swap refl refl))
  ]

  pub sort-Permᴰ : (xs : List A) → Permᴰ (sort xs) xs
  unfolding sort
  sort-Permᴰ [] = Permᴰ.nil
  sort-Permᴰ (x ∷ xs) =
      Permᴰ.trans (insert_sorted-Permᴰ x (sort xs)) (Permᴰ.cons refl (sort-Permᴰ xs))

  -- Elements of a list that compare equal are equal.
  abbrev pub Distinguishes : List A → Type ℓ
  Distinguishes xs = (a b : A) → Memᴰ a xs → Memᴰ b xs → cmp a b ≡ eq → a ≡ b

  module _ (c : IsComparison cmp) where
    at_most_trans :
        (x y z : A) → at_most (cmp x y) ≡ true → at_most (cmp y z) ≡ true → at_most (cmp x z) ≡ true
    at_most_trans x y z h k = ground (arith, c.chains x y z)

    IsBelow-trans : (x y : A) (zs : List A) → at_most (cmp x y) ≡ true → IsBelow y zs → IsBelow x zs
    IsBelow-trans x y [] h k = tt
    IsBelow-trans x y (z ∷ zs) h (k, ks) = (at_most_trans x y z h k, IsBelow-trans x y zs h ks)

    insert_sorted-IsBelow :
        (w x : A) (ys : List A)
        → at_most (cmp w x) ≡ true
        → IsBelow w ys
        → IsBelow w (insert_sorted x ys)
    unfolding insert_sorted
    insert_sorted-IsBelow w x [] h k = (h, tt)
    insert_sorted-IsBelow w x (y ∷ ys) h (k, ks) = elim (Bool-cases (at_most (cmp x y))) [
      | inl t ↦ rw t (h, (k, ks))
      | inr t ↦ rw t (k, insert_sorted-IsBelow w x ys h ks)
    ]

    insert_sorted-IsSorted : (x : A) (ys : List A) → IsSorted ys → IsSorted (insert_sorted x ys)
    unfolding insert_sorted
    insert_sorted-IsSorted x [] s = (tt, tt)
    insert_sorted-IsSorted x (y ∷ ys) (b, s) = elim (Bool-cases (at_most (cmp x y))) [
      | inl t ↦ rw t ((t, IsBelow-trans x y ys t b), (b, s))
      | inr t ↦
          let back : at_most (cmp y x) ≡ true = ground (arith, c.flips x y) in
          rw t (insert_sorted-IsBelow y x ys back b, insert_sorted-IsSorted x ys s)
    ]

    pub sort-IsSorted : (xs : List A) → IsSorted (sort xs)
    unfolding sort
    sort-IsSorted [] = tt
    sort-IsSorted (x ∷ xs) = insert_sorted-IsSorted x (sort xs) (sort-IsSorted xs)

    insert_sorted-apart :
        (x y : A) (l : List A)
        → cmp x y ≡ lt
        → insert_sorted x (insert_sorted y l) ≡ insert_sorted y (insert_sorted x l)
    unfolding insert_sorted
    insert_sorted-apart x y [] h = ground (arith, c.flips x y)
    insert_sorted-apart x y (z ∷ zs) h = ground (
      arith,
      c.flips x y,
      c.chains x y z,
      c.chains y x z,
      c.flips x z,
      c.flips y z,
      c.chains x z y,
      insert_sorted-apart x y zs h,
    )

    insert_sorted_comm :
        (x y : A) (l : List A)
        → (cmp x y ≡ eq → x ≡ y)
        → insert_sorted x (insert_sorted y l) ≡ insert_sorted y (insert_sorted x l)
    insert_sorted_comm x y l same = elim (Ordering-cases (cmp x y)) [
      | inl less ↦ insert_sorted-apart x y l less
      | inr (inl equal) ↦
          subst (λ z. insert_sorted x (insert_sorted z l) ≡ insert_sorted z (insert_sorted x l))
            (same equal) refl
      | inr (inr more) ↦ sym (insert_sorted-apart y x l (c.flips x y ∙ ap flip more))
    ]

    -- The order in which the elements came does not show in the result.
    pub sort-eq_of_perm : {xs ys : List A} → Permᴰ xs ys → Distinguishes xs → sort xs ≡ sort ys
    unfolding sort
    sort-eq_of_perm Permᴰ.nil d = refl
    sort-eq_of_perm (Permᴰ.cons {a = a} {b = b} {l₁ = l₁} {l₂ = l₂} e p) d =
        ap (insert_sorted a) (sort-eq_of_perm p (λ x y m n. d x y (Memᴰ.tail m) (Memᴰ.tail n)))
        ∙ ap (λ z. insert_sorted z (sort l₂)) e
    sort-eq_of_perm (Permᴰ.swap {a = a} {b = b} {a' = a'} {l = l} e f) d =
        insert_sorted_comm a b (sort l) (d a b (Memᴰ.head refl) (Memᴰ.tail (Memᴰ.head refl)))
        ∙ ap (λ z. insert_sorted z (insert_sorted a (sort l))) f
        ∙ ap (λ z. insert_sorted a' (insert_sorted z (sort l))) e
    sort-eq_of_perm (Permᴰ.trans {l₁ = l₁} {l₂ = l₂} p q) d =
        sort-eq_of_perm p d
        ∙ sort-eq_of_perm q
            (λ x y m n. d x y (Memᴰ-Permᴰ x (Permᴰ.symm p) m) (Memᴰ-Permᴰ y (Permᴰ.symm p) n))
