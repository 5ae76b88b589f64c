-- ===== src/Attribution/Lifecycle/Laws.antt =====
-- Which mark of a piece of evidence counts.
use open_mmp.Common.{
  ◌≡◌, refl, ◌∙◌, inl, inr, Bool, List, [], ◌∷◌, ◌++◌, Option, none, some, String, lookup,
  lookup-insert, Bool-cases, any, map, arith, if◌then◌else◌,
}
use open_mmp.Attribution.Candidates.{CompositeKey, key_eq}
use open_mmp.Attribution.Results.{Lifecycle, purged, LifecycleIndex, evidence_key}
use open_mmp.Attribution.Lifecycle.{
  AffectedRecord, PrivacyRequest, RetentionExpiration, mark, mark_affected, mark_requests,
  mark_expirations, privacy_index,
}

-- The marks of the completed requests, in the order of the requests.
abbrev pub marks_of : PrivacyRequest → LifecycleIndex
marks_of r =
    map (λ a. (evidence_key r.tenant_id r.app_id a.record_id, a.lifecycle_status))
      r.affected_records

abbrev pub request_marks : List PrivacyRequest → LifecycleIndex
request_marks [] = []
request_marks (r ∷ rs) = if r.completed then marks_of r ++ request_marks rs else request_marks rs

abbrev pub last_mark : CompositeKey → LifecycleIndex → Option Lifecycle
last_mark key [] = none
last_mark key ((k, s) ∷ marks) = elim (last_mark key marks) [
  | some t ↦ some t
  | none ↦ if key_eq.beq k key then some s else none
]

-- A later mark, or what an earlier index has.
abbrev over : Option Lifecycle → Option Lifecycle → Option Lifecycle
over (some s) t = some s
over none t = t

last_mark-append :
    (key : CompositeKey) (xs ys : LifecycleIndex)
    → last_mark key (xs ++ ys) ≡ over (last_mark key ys) (last_mark key xs)
last_mark-append key [] ys = ground arith
last_mark-append key ((k, s) ∷ xs) ys = ground (arith, last_mark-append key xs ys)

lookup-mark :
    (key k : CompositeKey) (s : Lifecycle) (index : LifecycleIndex)
    → lookup ⦃e = key_eq⦄ key (mark k s index)
      ≡ (if key_eq.beq k key then some s else lookup ⦃e = key_eq⦄ key index)
lookup-mark key k s index =
    ground (arith, lookup-insert ⦃e = key_eq⦄ k key s index, key_eq.beq_iff k key)

mark_affected-lookup :
    (key : CompositeKey) (tenant_id app_id : String) (affected : List AffectedRecord)
    (index : LifecycleIndex)
    → lookup ⦃e = key_eq⦄ key (mark_affected tenant_id app_id affected index)
      ≡ over
          (last_mark key
            (map (λ a. (evidence_key tenant_id app_id a.record_id, a.lifecycle_status)) affected))
          (lookup ⦃e = key_eq⦄ key index)
unfolding mark_affected
mark_affected-lookup key t p [] index = refl
mark_affected-lookup key t p (a ∷ rest) index =
    let step = lookup-mark key (evidence_key t p a.record_id) a.lifecycle_status index in
    mark_affected-lookup key t p rest _ ∙ ground (arith, step)

mark_requests-lookup :
    (key : CompositeKey) (rs : List PrivacyRequest) (index : LifecycleIndex)
    → lookup ⦃e = key_eq⦄ key (mark_requests rs index)
      ≡ over (last_mark key (request_marks rs)) (lookup ⦃e = key_eq⦄ key index)
unfolding mark_requests
mark_requests-lookup key [] index = refl
mark_requests-lookup key (r ∷ rs) index = elim (Bool-cases r.completed) [
  | inr c ↦ rw c (mark_requests-lookup key rs index)
  | inl c ↦
      let step = mark_affected-lookup key r.tenant_id r.app_id r.affected_records index in
      let split = last_mark-append key (marks_of r) (request_marks rs) in
      rw c (mark_requests-lookup key rs _ ∙ ground (arith, step, split))
]

abbrev pub expires : CompositeKey → RetentionExpiration → Bool
expires key x = key_eq.beq (evidence_key x.tenant_id x.app_id x.record_id) key

mark_expirations-lookup :
    (key : CompositeKey) (xs : List RetentionExpiration) (index : LifecycleIndex)
    → lookup ⦃e = key_eq⦄ key (mark_expirations xs index)
      ≡ (if any (expires key) xs then some purged else lookup ⦃e = key_eq⦄ key index)
unfolding mark_expirations
mark_expirations-lookup key [] index = refl
mark_expirations-lookup key (x ∷ xs) index =
    let k = evidence_key x.tenant_id x.app_id x.record_id in
    let step = lookup-mark key k purged index in
    mark_expirations-lookup key xs (mark k purged index) ∙ ground (arith, step)

-- Evidence whose retention has expired is purged, whatever the privacy requests did to it; other
-- evidence has the status of the last mark that a completed privacy request puts on it, and no
-- status if there is none. A request that is not completed marks nothing.
pub privacy_index-lookup :
    (requests : List PrivacyRequest) (expirations : List RetentionExpiration) (key : CompositeKey)
    → lookup ⦃e = key_eq⦄ key (privacy_index requests expirations) ≡ (
        if any (expires key) expirations
        then some purged
        else last_mark key (request_marks requests))
unfolding privacy_index
privacy_index-lookup rs xs key =
    mark_expirations-lookup key xs (mark_requests rs [])
    ∙ ground (arith, mark_requests-lookup key rs [])
