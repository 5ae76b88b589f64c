-- ===== src/Common/Pointwise.antt =====
-- Two lists related element by element.
use mathlib.Core.Path.{◌≡◌, refl}
use mathlib.Core.List.{List, [], ◌∷◌, ◌++◌, map}

module _ {ℓ κ} {A : Type ℓ} {B : Type κ} (R : A → B → Type 0) where
  abbrev pub Pointwise : List A → List B → Type 0
  Pointwise [] [] = Unit
  Pointwise (x ∷ xs) (y ∷ ys) = R x y × Pointwise xs ys
  Pointwise _ _ = ⊥

  pub Pointwise-append :
      (xs : List A) (ys : List B) (us : List A) (vs : List B)
      → Pointwise xs ys
      → Pointwise us vs
      → Pointwise (xs ++ us) (ys ++ vs)
  Pointwise-append [] [] us vs p q = q
  Pointwise-append (x ∷ xs) (y ∷ ys) us vs (r, p) q = (r, Pointwise-append xs ys us vs p q)
  Pointwise-append [] (y ∷ ys) us vs p q = elim p [ ]
  Pointwise-append (x ∷ xs) [] us vs p q = elim p [ ]

pub Pointwise-mono {ℓ κ} :
    {A : Type ℓ} {B : Type κ} (R S : A → B → Type 0)
    → ((x : A) (y : B) → R x y → S x y)
    → (xs : List A) (ys : List B) → Pointwise R xs ys
    → Pointwise S xs ys
Pointwise-mono R S f [] [] p = tt
Pointwise-mono R S f (x ∷ xs) (y ∷ ys) (r, p) = (f x y r, Pointwise-mono R S f xs ys p)
Pointwise-mono R S f [] (y ∷ ys) p = elim p [ ]
Pointwise-mono R S f (x ∷ xs) [] p = elim p [ ]

pub Pointwise-map {ℓ κ} :
    {A : Type ℓ} {B : Type κ} {C : Type 0} (f : A → C) (g : B → C) (xs : List A) (ys : List B)
    → Pointwise (λ x y. f x ≡ g y) xs ys
    → map f xs ≡ map g ys
Pointwise-map f g [] [] p = refl
Pointwise-map f g (x ∷ xs) (y ∷ ys) (r, p) = λ i. r i ∷ Pointwise-map f g xs ys p i
Pointwise-map f g [] (y ∷ ys) p = elim p [ ]
Pointwise-map f g (x ∷ xs) [] p = elim p [ ]
