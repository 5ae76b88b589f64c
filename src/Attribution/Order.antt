-- ===== src/Attribution/Order.antt =====
-- The orders of packages/attribution-core/src/evaluator.ts: `compareText`, `sortByKey` and
-- `sortCandidateAttempts`. Texts are compared by their UTF-16 code units, as JavaScript does.
pub mod Laws
use Prim.Native.Nat.{compare, Ordering, eq}
use open_mmp.Common.{ℕ, ◌+◌, ◌-◌, ◌/◌, ◌%◌, List, [], ◌∷◌, ◌++◌, some, String, ltb, if◌then◌else◌}
use open_mmp.Common.Ordering.{lexicographic, or_next}
use open_mmp.Common.Sorting.{sort}
use open_mmp.Instant.{codes}
use open_mmp.Attribution.Types.{CandidateAttempt, Digests}

-- A code point in one unit or in a pair of surrogates.
abbrev pub units_of : ℕ → List ℕ → List ℕ
units_of c rest =
    if ltb c 65536
    then c ∷ rest
    else (55296 + (c - 65536) / 1024) ∷ (56320 + (c - 65536) % 1024) ∷ rest

unfoldable pub units : List ℕ → List ℕ
units [] = []
units (c ∷ cs) = units_of c (units cs)

unfoldable pub compare_text : String → String → Ordering
unfolding units lexicographic
compare_text a b = lexicographic compare (units (codes a)) (units (codes b))

-- The loop over the parts of the first key. A part that the second lacks is `undefined`, with which
-- no comparison tells apart.
unfoldable pub compare_keys : List String → List String → Ordering
compare_keys [] bs = eq
compare_keys (a ∷ rest) [] = eq
compare_keys (a ∷ rest) (b ∷ bs) = or_next (compare_text a b) (compare_keys rest bs)

abbrev pub by_key {ℓ} : {A : Type ℓ} → (A → List String) → A → A → Ordering
by_key key a b = compare_keys (key a) (key b)

-- The key with the digest of the value behind it.
abbrev pub full_key {ℓ} : {A : Type ℓ} → (A → String) → (A → List String) → A → List String
full_key digest key a = key a ++ digest a ∷ []

unfoldable pub sort_by_key {ℓ} : {A : Type ℓ} → (A → String) → List A → (A → List String) → List A
unfolding sort
sort_by_key digest values key = sort (by_key (full_key digest key)) values

abbrev pub candidate_attempt_sort_key : Digests → CandidateAttempt → List String
candidate_attempt_sort_key dg a =
    a.event.received_at
    ∷ a.event.record_id
    ∷ a.event.delivery_id
    ∷ a.server.tenant_id
    ∷ a.server.app_id
    ∷ a.event.schema_version
    ∷ dg.record_digest a.event
    ∷ []

abbrev pub compare_candidate_attempts : Digests → CandidateAttempt → CandidateAttempt → Ordering
compare_candidate_attempts dg = by_key (candidate_attempt_sort_key dg)

unfoldable pub sort_candidate_attempts : Digests → List CandidateAttempt → List CandidateAttempt
unfolding sort
sort_candidate_attempts dg values = sort (compare_candidate_attempts dg) values
