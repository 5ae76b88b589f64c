-- ===== src/Common/Members.antt =====
-- Membership in lists that are made from others.
use mathlib.Core.Path.{◌≡◌, refl, ap, sym, subst, ◌∙◌}
use mathlib.Core.Logic.{◌↔◌, inl, inr}
use mathlib.Core.Option.{some}
use mathlib.Core.Bool.{Bool, true, false}
use mathlib.Core.List.{List, [], ◌∷◌, map, Memᴰ}
use mathlib.Core.List.Memᴰ
use native.Mathlib.Omega.{arith}
use open_mmp.Common.Lists.{filter, find, any}
use open_mmp.Common.Tests.{if◌then◌else◌, Bool-cases, or_else}

module _ {ℓ} {A : Type ℓ} where
  pub Memᴰ-filter :
      (p : A → Bool) (xs : List A) (x : A) → Memᴰ x (filter p xs) → Memᴰ x xs × (p x ≡ true)
  Memᴰ-filter p [] x m = elim m [ ]
  Memᴰ-filter p (y ∷ ys) x m = elim (Bool-cases (p y)) [
    | inr e ↦ let (n, t) = Memᴰ-filter p ys x (rw e at m) in (Memᴰ.tail n, t)
    | inl e ↦ elim (Memᴰ.cases_cons (rw e at m)) [
      | inl q ↦ (Memᴰ.head q, ap p q ∙ e)
      | inr n ↦ let (k, t) = Memᴰ-filter p ys x n in (Memᴰ.tail k, t)
    ]
  ]

  pub filter-Memᴰ :
      (p : A → Bool) (xs : List A) (x : A) → Memᴰ x xs → p x ≡ true → Memᴰ x (filter p xs)
  filter-Memᴰ p [] x m t = elim m [ ]
  filter-Memᴰ p (y ∷ ys) x (Memᴰ.head e) t =
      let hit = ap p e in let h : p y ≡ true = cc in rw h (Memᴰ.head e)
  filter-Memᴰ p (y ∷ ys) x (Memᴰ.tail m) t = elim (Bool-cases (p y)) [
    | inl e ↦ rw e (Memᴰ.tail (filter-Memᴰ p ys x m t))
    | inr e ↦ rw e (filter-Memᴰ p ys x m t)
  ]

  pub if_true-Memᴰ :
      (b : Bool) (u v : List A) (x : A) → b ≡ true → Memᴰ x u → Memᴰ x (if b then u else v)
  if_true-Memᴰ b u v x e m = subst (λ c. Memᴰ x (if c then u else v)) (sym e) m

  -- A test that no member meets.
  pub any-none :
      (p : A → Bool) (xs : List A) → ((x : A) → Memᴰ x xs → p x ≡ false) → any p xs ≡ false
  any-none p [] h = refl
  any-none p (x ∷ xs) h =
      let here = h x (Memᴰ.head refl) in
      let rest = any-none p xs (λ y m. h y (Memᴰ.tail m)) in ground (arith, here, rest)

module _ {ℓ κ} {A : Type ℓ} {B : Type κ} where
  pub Memᴰ-map :
      (f : A → B) (xs : List A) (y : B) → Memᴰ y (map f xs) → (x : A) × Memᴰ x xs × (y ≡ f x)
  Memᴰ-map f [] y m = elim m [ ]
  Memᴰ-map f (x ∷ xs) y (Memᴰ.head e) = (x, Memᴰ.head refl, e)
  Memᴰ-map f (x ∷ xs) y (Memᴰ.tail m) = let (z, n, e) = Memᴰ-map f xs y m in (z, Memᴰ.tail n, e)

  pub map-Memᴰ : (f : A → B) (xs : List A) (x : A) → Memᴰ x xs → Memᴰ (f x) (map f xs)
  map-Memᴰ f [] x m = elim m [ ]
  map-Memᴰ f (y ∷ ys) x (Memᴰ.head e) = Memᴰ.head (ap f e)
  map-Memᴰ f (y ∷ ys) x (Memᴰ.tail m) = Memᴰ.tail (map-Memᴰ f ys x m)

-- Some element meets a test exactly if some element has the property that the test decides.
pub any_iff {ℓ} :
    {A : Type ℓ} (p : A → Bool) (P : A → Type 0) (xs : List A)
    → ((x : A) → (p x ≡ true) ↔ P x)
    → (any p xs ≡ true) ↔ ((x : A) × Memᴰ x xs × P x)
any_iff p P [] f = (λ h. cc, λ (x, m, _). elim m [ ])
any_iff p P (x ∷ xs) f =
    let (to, from) = any_iff p P xs f in
    (
      λ h. elim (Bool-cases (p x)) [
        | inl t ↦ (x, Memᴰ.head refl, (f x).0 t)
        | inr t ↦ let (y, m, q) = to (rw t at h) in (y, Memᴰ.tail m, q)
      ],
      λ (y, m, q). elim (Memᴰ.cases_cons m) [
        | inl e ↦ let t : p y ≡ true = (f y).1 q in rw (← e, t)
        | inr n ↦ let t = from (y, n, q) in ground (arith, t)
      ],
    )

pub find-Memᴰ {ℓ} :
    {A : Type ℓ} (p : A → Bool) (xs : List A) (x : A)
    → find p xs ≡ some x
    → Memᴰ x xs × (p x ≡ true)
find-Memᴰ p [] x h = cc h
find-Memᴰ p (y ∷ ys) x h = elim (Bool-cases (p y)) [
  | inl t ↦
      let e : some y ≡ some x = rw t at h in
      let same = ap (λ o. or_else o y) e in (Memᴰ.head (sym same), ap p (sym same) ∙ t)
  | inr t ↦ let (m, q) = find-Memᴰ p ys x (rw t at h) in (Memᴰ.tail m, q)
]
