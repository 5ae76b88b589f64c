-- ===== src/Attribution/Order/Laws.antt =====
-- What the sorts give: a rearrangement in the order of the keys, which does not depend on how the
-- values came.
use Prim.Native.Nat.{compare}
use mathlib.Core.List.{Permᴰ}
use open_mmp.Common.{
  ℕ, ◌+◌, ◌≡◌, refl, sym, ap, ◌∙◌, List, [], ◌∷◌, String, length, length-append, arith,
}
use open_mmp.Common.Ordering.{
  IsComparison, or_next, lexicographic, compare-IsComparison, lexicographic-IsComparison,
}
use open_mmp.Common.Sorting.{IsSorted, Distinguishes, sort-Permᴰ, sort-IsSorted, sort-eq_of_perm}
use open_mmp.Instant.{codes}
use open_mmp.Attribution.Types.{CandidateAttempt, Digests}
use open_mmp.Attribution.Order.{
  units, compare_text, compare_keys, by_key, full_key, sort_by_key, compare_candidate_attempts,
  candidate_attempt_sort_key, sort_candidate_attempts,
}

pub compare_text-IsComparison : IsComparison compare_text
unfolding compare_text
compare_text-IsComparison =
    let c = lexicographic-IsComparison compare compare-IsComparison in
    record {
      flips = λ a b. c.flips (units (codes a)) (units (codes b));
      chains = λ a b d. c.chains (units (codes a)) (units (codes b)) (units (codes d));
    }

-- Keys of one length are compared by their first difference.
compare_keys-lexicographic :
    (as' bs : List String)
    → length as' ≡ length bs
    → compare_keys as' bs ≡ lexicographic compare_text as' bs
unfolding compare_keys lexicographic
compare_keys-lexicographic [] [] h = refl
compare_keys-lexicographic [] (b ∷ bs) h = absurd (omega arith)
compare_keys-lexicographic (a ∷ rest) [] h = absurd (omega arith)
compare_keys-lexicographic (a ∷ rest) (b ∷ bs) h =
    ap (or_next (compare_text a b)) (compare_keys-lexicographic rest bs (omega arith))

module _ {ℓ} {A : Type ℓ} (key : A → List String) (n : ℕ)
    (fixed : (a : A) → length (key a) ≡ n) where
  by_key-lexicographic : (a b : A) → by_key key a b ≡ lexicographic compare_text (key a) (key b)
  by_key-lexicographic a b = compare_keys-lexicographic (key a) (key b) (fixed a ∙ sym (fixed b))

  pub by_key-IsComparison : IsComparison (by_key key)
  by_key-IsComparison =
      let c = lexicographic-IsComparison compare_text compare_text-IsComparison in
      record {
        flips = λ a b.
            rw (by_key-lexicographic a b, by_key-lexicographic b a) (c.flips (key a) (key b));
        chains = λ a b d.
            rw (by_key-lexicographic a b, by_key-lexicographic b d, by_key-lexicographic a d)
              (c.chains (key a) (key b) (key d));
      }

-- The attempts of an evaluation are put in the order of their keys, none lost and none added; and
-- in whatever order they came, the result is the same list, if no two different ones of them
-- compare equal.
pub sort_candidate_attempts-eq_of_perm :
    (dg : Digests) (xs : List CandidateAttempt)
    → IsSorted (compare_candidate_attempts dg) (sort_candidate_attempts dg xs)
      × Permᴰ (sort_candidate_attempts dg xs) xs
      × ((ys : List CandidateAttempt)
          → Permᴰ xs ys
          → Distinguishes (compare_candidate_attempts dg) xs
          → sort_candidate_attempts dg xs ≡ sort_candidate_attempts dg ys)
unfolding sort_candidate_attempts
sort_candidate_attempts-eq_of_perm dg xs =
    let cmp = compare_candidate_attempts dg in
    let c = by_key-IsComparison (candidate_attempt_sort_key dg) 7 (λ a. refl) in
    (sort-IsSorted cmp c xs, sort-Permᴰ cmp xs, λ ys p d. sort-eq_of_perm cmp c p d)

-- An output sorted by keys of one length, with the digest of the value behind each, is the values
-- in the order of these keys; and it does not depend on the order in which the values came, if no
-- two different ones of them compare equal.
pub sort_by_key-eq_of_perm :
    {A : Type 0} (digest : A → String) (key : A → List String) (n : ℕ) (xs : List A)
    → ((a : A) → length (key a) ≡ n)
    → IsSorted (by_key (full_key digest key)) (sort_by_key digest xs key)
      × Permᴰ (sort_by_key digest xs key) xs
      × ((ys : List A)
          → Permᴰ xs ys
          → Distinguishes (by_key (full_key digest key)) xs
          → sort_by_key digest xs key ≡ sort_by_key digest ys key)
unfolding sort_by_key
sort_by_key-eq_of_perm digest key n xs fixed =
    let cmp = by_key (full_key digest key) in
    let c =
      by_key-IsComparison (full_key digest key) (n + 1)
        (λ a. omega (arith, length-append (key a) (digest a ∷ []), fixed a)) in
    (sort-IsSorted cmp c xs, sort-Permᴰ cmp xs, λ ys p d. sort-eq_of_perm cmp c p d)
