-- ===== src/Attribution/Consent/Basis.antt =====
-- The search for a legal basis that covers a record.
use mathlib.Core.List.{Memᴰ}
use mathlib.Core.Path.{subst}
use open_mmp.Common.{
  ℕ, ◌≤◌, ◌≡◌, inl, inr, refl, sym, true, false, ◌&&◌, List, [], ◌∷◌, Option, none, some, String,
  opt_eq, opt_eq_iff, ok, >>=-eq-ok, arith, All, Bool-cases, Option-cases,
}
use open_mmp.Instant.{to_instant}
use open_mmp.Attribution.Types.{LegalBasis, Record}
use open_mmp.Attribution.Errors.{time, known_or}
use open_mmp.Attribution.Consent.{covers, find_basis}

pub time-eq-ok :
    (value field : String) {t : ℕ} → time (some value) field ≡ ok t → to_instant value ≡ some t
unfolding time
time-eq-ok value field h = elim (Option-cases (to_instant value)) [
  | inl e ↦ cc (rw (e, known_or) at h)
  | inr (t, e) ↦ ground arith
]

-- A legal basis for the record's purpose, named by the record and in effect when it was received.
pub record Covers (r : Record) (b : LegalBasis) : Type 0 where
  pub named : r.alternative_legal_basis_id ≡ some b.alternative_legal_basis_id
  pub purpose : r.processing_purpose_id ≡ some b.processing_purpose_id
  pub effective : ℕ
  pub received : ℕ
  pub effective_at : to_instant b.effective_at ≡ some effective
  pub received_at : to_instant r.received_at ≡ some received
  pub in_effect : effective ≤ received

covers_sound : (r : Record) (b : LegalBasis) → covers r b ≡ ok true → Covers r b
unfolding covers
covers_sound r b h =
    elim (Bool-cases (
      opt_eq (some b.alternative_legal_basis_id) r.alternative_legal_basis_id
      && opt_eq (some b.processing_purpose_id) r.processing_purpose_id)) [
        | inr e ↦ cc (rw e at h)
        | inl e ↦
            let (te, he, k) = >>=-eq-ok _ _ (rw e at h) in
            let (tr, hr, l) = >>=-eq-ok _ _ k in
            record {
              named = ground (
                arith,
                opt_eq_iff (some b.alternative_legal_basis_id) r.alternative_legal_basis_id,
              );
              purpose =
                  ground (arith, opt_eq_iff (some b.processing_purpose_id) r.processing_purpose_id);
              effective = te;
              received = tr;
              effective_at = time-eq-ok b.effective_at "effective_at" he;
              received_at = time-eq-ok r.received_at "received_at" hr;
              in_effect = ground arith;
            }
      ]

covers_complete : (r : Record) (b : LegalBasis) → Covers r b → covers r b ≡ ok true
unfolding covers time
covers_complete r b c =
    rw
      (
        (opt_eq_iff (some b.alternative_legal_basis_id) r.alternative_legal_basis_id).1
            (sym c.named),
        (opt_eq_iff (some b.processing_purpose_id) r.processing_purpose_id).1 (sym c.purpose),
        c.effective_at,
        c.received_at,
        known_or,
      )
      (ground arith)

-- The search finds a listed basis that covers the record, and finds none only if none does.
abbrev pub Found : Record → List LegalBasis → Option LegalBasis → Type 0
Found r bs none = All (λ b. ¬ Covers r b) bs
Found r bs (some b) = Memᴰ b bs × Covers r b

Found-cons :
    (r : Record) (c : LegalBasis) (bs : List LegalBasis) (o : Option LegalBasis)
    → covers r c ≡ ok false
    → Found r bs o
    → Found r (c ∷ bs) o
Found-cons r c bs none e h = (λ k. cc (covers_complete r c k), h)
Found-cons r c bs (some b) e h = (Memᴰ.tail h.0, h.1)

pub find_basis-Found :
    (r : Record) (bs : List LegalBasis) (o : Option LegalBasis)
    → find_basis r bs ≡ ok o
    → Found r bs o
unfolding find_basis
find_basis-Found r [] o h = let same : none ≡ o = cc in subst (Found r []) same tt
find_basis-Found r (c ∷ bs) o h =
    let (hit, e, k) = >>=-eq-ok (covers r c) _ h in
    elim (Bool-cases hit) [
      | inl t ↦
          let same : some c ≡ o = ground arith in
          subst (Found r (c ∷ bs)) same (Memᴰ.head refl, covers_sound r c (rw t at e))
      | inr t ↦ Found-cons r c bs o (rw t at e) (find_basis-Found r bs o (rw t at k))
    ]
