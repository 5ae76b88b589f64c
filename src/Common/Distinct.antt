-- ===== src/Common/Distinct.antt =====
-- Dictionaries in which each key stands once.
use mathlib.Core.Path.{◌≡◌, refl}
use mathlib.Core.Logic.{inl, inr}
use mathlib.Core.Bool.{Bool, true, false}
use mathlib.Core.List.{List, [], ◌∷◌}
use mathlib.Core.Option.{none, some}
use native.Mathlib.Omega.{arith}
use open_mmp.Common.Dictionary.{lookup, insert, remove, lookup-insert}
use open_mmp.Common.Equality.{Eq}
use open_mmp.Common.Lists.{filter}
use open_mmp.Common.Tests.{Bool-cases}

module _ {ℓ κ} {K : Type ℓ} ⦃e : Eq K⦄ {V : Type κ} where
  abbrev pub IsDistinct : List (K × V) → Type κ
  IsDistinct [] = Unit
  IsDistinct ((k, v) ∷ m) = (lookup k m ≡ none) × IsDistinct m

  lookup-filter_none :
      (p : K × V → Bool) (k : K) (m : List (K × V))
      → lookup k m ≡ none
      → lookup k (filter p m) ≡ none
  lookup-filter_none p k [] h = refl
  lookup-filter_none p k ((j, v) ∷ m) h = ground (arith, lookup-filter_none p k m)

  pub lookup-filter_kept :
      (p : K × V → Bool) (k : K) (v : V) (m : List (K × V))
      → lookup k m ≡ some v
      → p (k, v) ≡ true
      → lookup k (filter p m) ≡ some v
  lookup-filter_kept p k v [] h q = cc
  lookup-filter_kept p k v ((j, w) ∷ m) h q =
      ground (arith, lookup-filter_kept p k v m, e.beq_iff j k)

  pub lookup-filter_dropped :
      (p : K × V → Bool) (k : K) (v : V) (m : List (K × V))
      → IsDistinct m
      → lookup k m ≡ some v
      → p (k, v) ≡ false
      → lookup k (filter p m) ≡ none
  lookup-filter_dropped p k v [] d h q = refl
  lookup-filter_dropped p k v ((j, w) ∷ m) (u, d) h q =
      ground (arith, lookup-filter_dropped p k v m d, lookup-filter_none p k m, e.beq_iff j k)

  pub filter-IsDistinct :
      (p : K × V → Bool) (m : List (K × V)) → IsDistinct m → IsDistinct (filter p m)
  filter-IsDistinct p [] d = tt
  filter-IsDistinct p ((k, v) ∷ m) (u, d) = elim (Bool-cases (p (k, v))) [
    | inl q ↦ rw q (lookup-filter_none p k m u, filter-IsDistinct p m d)
    | inr q ↦ rw q (filter-IsDistinct p m d)
  ]

  pub insert-IsDistinct :
      (k : K) (v : V) (m : List (K × V)) → IsDistinct m → IsDistinct (insert k v m)
  insert-IsDistinct k v [] d = (refl, tt)
  insert-IsDistinct k v ((j, w) ∷ m) (u, d) = elim (Bool-cases (e.beq j k)) [
    | inl q ↦ rw q (u, d)
    | inr q ↦ rw q (
      ground (arith, lookup-insert k j v m, e.beq_iff j k, e.beq_iff k j),
      insert-IsDistinct k v m d,
    )
  ]

  lookup-remove_none :
      (k j : K) (m : List (K × V)) → lookup j m ≡ none → lookup j (remove k m) ≡ none
  lookup-remove_none k j [] h = refl
  lookup-remove_none k j ((i, w) ∷ m) h = ground (arith, lookup-remove_none k j m)

  pub remove-IsDistinct : (k : K) (m : List (K × V)) → IsDistinct m → IsDistinct (remove k m)
  remove-IsDistinct k [] d = tt
  remove-IsDistinct k ((j, w) ∷ m) (u, d) = elim (Bool-cases (e.beq j k)) [
    | inl q ↦ rw q d
    | inr q ↦ rw q (lookup-remove_none k j m u, remove-IsDistinct k m d)
  ]
