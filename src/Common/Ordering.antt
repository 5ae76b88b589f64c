-- ===== src/Common/Ordering.antt =====
-- Comparisons: their laws, and the comparison of lists by their first difference.
use Prim.Native.Nat.{ℕ, compare, Ordering, lt, eq, gt}
use mathlib.Core.Path.{◌≡◌, refl}
use mathlib.Core.List.{List, [], ◌∷◌}
use native.Mathlib.Omega.{arith}

abbrev pub flip : Ordering → Ordering
flip lt = gt
flip eq = eq
flip gt = lt

-- What two comparisons in a row say of the third.
abbrev pub Chain : Ordering → Ordering → Ordering → Type 0
Chain eq p r = r ≡ p
Chain lt gt r = Unit
Chain lt _ r = r ≡ lt
Chain gt lt r = Unit
Chain gt _ r = r ≡ gt

pub record IsComparison {ℓ} {A : Type ℓ} (cmp : A → A → Ordering) : Type ℓ where
  pub flips : (a b : A) → cmp b a ≡ flip (cmp a b)
  pub chains : (a b c : A) → Chain (cmp a b) (cmp b c) (cmp a c)

compare-flips : (a b : ℕ) → compare b a ≡ flip (compare a b)
compare-flips a b = ground arith

compare-chains : (a b c : ℕ) → Chain (compare a b) (compare b c) (compare a c)
compare-chains a b c = ground arith

pub compare-IsComparison : IsComparison compare
compare-IsComparison = record { flips = compare-flips; chains = compare-chains }

-- The first comparison that tells apart, or the next.
abbrev pub or_next : Ordering → Ordering → Ordering
or_next lt o = lt
or_next gt o = gt
or_next eq o = o

module _ {ℓ} {A : Type ℓ} (cmp : A → A → Ordering) where
  -- The order of a dictionary: a prefix comes first.
  unfoldable pub lexicographic : List A → List A → Ordering
  lexicographic [] [] = eq
  lexicographic [] (b ∷ bs) = lt
  lexicographic (a ∷ as') [] = gt
  lexicographic (a ∷ as') (b ∷ bs) = or_next (cmp a b) (lexicographic as' bs)

  module _ (c : IsComparison cmp) where
    lexicographic-flips : (as' bs : List A) → lexicographic bs as' ≡ flip (lexicographic as' bs)
    unfolding lexicographic
    lexicographic-flips [] [] = refl
    lexicographic-flips [] (b ∷ bs) = refl
    lexicographic-flips (a ∷ as') [] = refl
    lexicographic-flips (a ∷ as') (b ∷ bs) = ground (arith, c.flips a b, lexicographic-flips as' bs)

    lexicographic-chains :
        (as' bs cs : List A)
        → Chain (lexicographic as' bs) (lexicographic bs cs) (lexicographic as' cs)
    unfolding lexicographic
    lexicographic-chains [] [] [] = refl
    lexicographic-chains [] [] (c' ∷ cs) = refl
    lexicographic-chains [] (b ∷ bs) [] = tt
    lexicographic-chains [] (b ∷ bs) (c' ∷ cs) = ground arith
    lexicographic-chains (a ∷ as') [] [] = refl
    lexicographic-chains (a ∷ as') [] (c' ∷ cs) = tt
    lexicographic-chains (a ∷ as') (b ∷ bs) [] = ground arith
    lexicographic-chains (a ∷ as') (b ∷ bs) (c' ∷ cs) =
        ground (arith, c.chains a b c', lexicographic-chains as' bs cs)

    pub lexicographic-IsComparison : IsComparison lexicographic
    lexicographic-IsComparison = record {
      flips = lexicographic-flips;
      chains = lexicographic-chains;
    }
