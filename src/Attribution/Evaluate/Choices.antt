-- ===== src/Attribution/Evaluate/Choices.antt =====
-- Choosing among attempts by their decisions: `acceptedUnique` of packages/attribution-core/src/evaluator.ts.
use mathlib.Core.List.{Memᴰ}
use mathlib.Core.List.Memᴰ
use mathlib.Core.Path.{subst}
use open_mmp.Common.{◌≡◌, ◌↔◌, inl, inr, refl, sym, ap, true, List, ◌∷◌, Outcome, ok, throw, arith}
use open_mmp.Attribution.Errors.{Error}
use open_mmp.Attribution.Decide.{Decision, IngestionStatus, DuplicateResolution}
use open_mmp.Attribution.Results.{is_accepted, is_unique, is_accepted_unique}

pub ok-injective : {a b : Decision} → ◌≡◌ {A = Outcome Error Decision} (ok a) (ok b) → a ≡ b
ok-injective {a} h = ap (λ o. elim o [ ok x ↦ x | throw e ↦ a ]) h

is_accepted_iff : (s : IngestionStatus) → (is_accepted s ≡ true) ↔ (s ≡ IngestionStatus.accepted)
is_accepted_iff IngestionStatus.accepted = (λ _. refl, λ _. refl)
is_accepted_iff IngestionStatus.rejected = (λ h. cc h, λ h. cc h)

is_unique_iff : (r : DuplicateResolution) → (is_unique r ≡ true) ↔ (r ≡ DuplicateResolution.unique)
is_unique_iff DuplicateResolution.unique = (λ _. refl, λ _. refl)
is_unique_iff r = (λ h. cc h, λ h. cc h)

pub is_accepted_unique_iff :
    (d : Decision)
    → (is_accepted_unique d ≡ true) ↔ (
        (d.ingestion_status ≡ IngestionStatus.accepted)
        × (d.duplicate_resolution ≡ DuplicateResolution.unique))
is_accepted_unique_iff d =
    let s = is_accepted_iff d.ingestion_status in
    let r = is_unique_iff d.duplicate_resolution in
    (
      λ h. (s.0 (ground (arith, h)), r.0 (ground (arith, h))),
      λ (p, q). let a = s.1 p in let b = r.1 q in ground (arith, a, b),
    )

-- A list of the members of another that meet a condition, when the other grows by one.
module _ {A : Type 0} (Q : A → Type 0) (x : A) (ys xs : List A) where
  pub cons-kept :
      Q x
      → ((a : A) → Memᴰ a ys ↔ (Memᴰ a xs × Q a))
      → (a : A) → Memᴰ a (x ∷ ys) ↔ (Memᴰ a (x ∷ xs) × Q a)
  cons-kept q h a = (
    λ m. elim (Memᴰ.cases_cons m) [
      | inl e ↦ (Memᴰ.head e, subst Q (sym e) q)
      | inr n ↦ let (k, t) = (h a).0 n in (Memᴰ.tail k, t)
    ],
    λ (m, t). elim (Memᴰ.cases_cons m) [ inl e ↦ Memᴰ.head e | inr n ↦ Memᴰ.tail ((h a).1 (n, t)) ],
  )

  pub cons-left :
      ¬ (Q x)
      → ((a : A) → Memᴰ a ys ↔ (Memᴰ a xs × Q a))
      → (a : A) → Memᴰ a ys ↔ (Memᴰ a (x ∷ xs) × Q a)
  cons-left never h a = (
    λ m. let (k, t) = (h a).0 m in (Memᴰ.tail k, t),
    λ (m, t). elim (Memᴰ.cases_cons m) [
      | inl e ↦ elim (never (subst Q e t)) [ ]
      | inr n ↦ (h a).1 (n, t)
    ],
  )
