-- ===== src/Attribution/Outputs/Erasure.antt =====
-- What `evaluate` gives out of records that a completed privacy request affects.
use mathlib.Core.List.{Memᴰ}
use mathlib.Core.List.Memᴰ
use mathlib.Core.List.Permᴰ
use open_mmp.Common.{
  ◌≡◌, refl, sym, ap, ◌∙◌, inl, inr, Bool, true, false, List, [], ◌∷◌, map, String, filter, any,
  is_some, lookup, Bool-cases, Outcome, ok, throw, >>=-eq-ok, arith,
}
use open_mmp.Common.Sorting.{sort-Permᴰ, Memᴰ-Permᴰ}
use open_mmp.Common.Members.{Memᴰ-filter, any-none, Memᴰ-map, map-Memᴰ, if_true-Memᴰ}
use open_mmp.Attribution.Types.{CandidateAttempt, Digests}
use open_mmp.Attribution.Errors.{Error}
use open_mmp.Attribution.Consent.{consent_decision}
use open_mmp.Attribution.Candidates.{CandidateProvider, CompositeKey, key_eq}
use open_mmp.Attribution.Results.{Lifecycle, LifecycleIndex, evidence_key, attempt_evidence_key}
use open_mmp.Attribution.Lifecycle.{
  AffectedRecord, PrivacyRequest, RetentionExpiration, privacy_index,
}
use open_mmp.Attribution.Lifecycle.Laws.{marks_of, request_marks, last_mark, privacy_index-lookup}
use open_mmp.Attribution.Order.{sort_by_key, by_key, full_key}
use open_mmp.Attribution.Outputs.{
  RawRecord, make_raw_record, LogicalEvent, make_logical_event, redaction, refund_correction,
  tombstone, of_completed,
}
use open_mmp.Attribution.Outputs.Ledger.{
  raw_record_key, map_each, OutputDigests, Input, Ledger, is_kept, is_event, raw_records_of,
  logical_events_of, evaluate,
}
use open_mmp.Attribution.Outputs.Built.{evaluate-Built}

pub map_each-Memᴰ {ℓ κ} :
    {A : Type ℓ} {B : Type κ} (f : A → Outcome Error B) (xs : List A) (ys : List B) (y : B)
    → map_each f xs ≡ ok ys
    → Memᴰ y ys
    → (x : A) × Memᴰ x xs × (f x ≡ ok y)
unfolding map_each
map_each-Memᴰ f [] ys y h m = let same : [] ≡ ys = cc h in elim (rw (sym same) at m) [ ]
map_each-Memᴰ f (x ∷ xs) ys y h m =
    let (z, hz, k) = >>=-eq-ok (f x) _ h in
    let (zs, hzs, l) = >>=-eq-ok (map_each f xs) _ k in
    let same : z ∷ zs ≡ ys = cc l in
    elim (Memᴰ.cases_cons (rw (sym same) at m)) [
      | inl e ↦ (x, Memᴰ.head refl, hz ∙ ap ok (sym e))
      | inr n ↦ let (w, q, e) = map_each-Memᴰ f xs zs y hzs n in (w, Memᴰ.tail q, e)
    ]

module _ {ℓ} {A : Type ℓ} (digest : A → String) (key : A → List String) (xs : List A) (x : A) where
  pub sort_by_key-Memᴰ : Memᴰ x (sort_by_key digest xs key) → Memᴰ x xs
  unfolding sort_by_key
  sort_by_key-Memᴰ m = Memᴰ-Permᴰ x (sort-Permᴰ (by_key (full_key digest key)) xs) m

  pub sort_by_key-keeps-Memᴰ : Memᴰ x xs → Memᴰ x (sort_by_key digest xs key)
  unfolding sort_by_key
  sort_by_key-keeps-Memᴰ m =
      Memᴰ-Permᴰ x (Permᴰ.symm (sort-Permᴰ (by_key (full_key digest key)) xs)) m

of_completed-Memᴰ {ℓ} :
    {A : Type ℓ} (make : PrivacyRequest → AffectedRecord → A) (rs : List PrivacyRequest)
    (r : PrivacyRequest) (affected : AffectedRecord)
    → Memᴰ r rs
    → r.completed ≡ true
    → Memᴰ affected r.affected_records
    → Memᴰ (make r affected) (of_completed make rs)
unfolding of_completed
of_completed-Memᴰ make [] r affected m c n = elim m [ ]
of_completed-Memᴰ make (s ∷ rs) r affected (Memᴰ.head e) c n = rw (sym e) (
    if_true-Memᴰ r.completed _ (of_completed make rs) _ c
      (Memᴰ.append_left (of_completed make rs) (map-Memᴰ (make r) r.affected_records affected n)))
of_completed-Memᴰ make (s ∷ rs) r affected (Memᴰ.tail m) c n =
    let rest = of_completed-Memᴰ make rs r affected m c n in
    elim (Bool-cases s.completed) [
      | inl t ↦
          if_true-Memᴰ s.completed _ (of_completed make rs) _ t
            (Memᴰ.append_right (map (make s) s.affected_records) rest)
      | inr t ↦ rw t rest
    ]

request_marks-Memᴰ :
    (rs : List PrivacyRequest) (r : PrivacyRequest) (affected : AffectedRecord)
    → Memᴰ r rs
    → r.completed ≡ true
    → Memᴰ affected r.affected_records
    → Memᴰ
        (evidence_key r.tenant_id r.app_id affected.record_id, affected.lifecycle_status)
        (request_marks rs)
request_marks-Memᴰ [] r affected m c n = elim m [ ]
request_marks-Memᴰ (s ∷ rs) r affected (Memᴰ.head e) c n = rw (sym e) (
    rw c (
      Memᴰ.append_left (request_marks rs) (
        map-Memᴰ (λ a. (evidence_key r.tenant_id r.app_id a.record_id, a.lifecycle_status))
          r.affected_records affected n)))
request_marks-Memᴰ (s ∷ rs) r affected (Memᴰ.tail m) c n =
    let rest = request_marks-Memᴰ rs r affected m c n in
    elim (Bool-cases s.completed) [
      | inl t ↦ rw t (Memᴰ.append_right (marks_of s) rest)
      | inr t ↦ rw t rest
    ]

last_mark-Memᴰ :
    (key : CompositeKey) (marks : LifecycleIndex) (status : Lifecycle)
    → Memᴰ (key, status) marks
    → is_some (last_mark key marks) ≡ true
last_mark-Memᴰ key [] status m = elim m [ ]
last_mark-Memᴰ key ((k, s) ∷ marks) status (Memᴰ.head e) =
    let same = (key_eq.beq_iff k key).1 (sym (ap (λ p. p.0) e)) in ground (arith, same)
last_mark-Memᴰ key ((k, s) ∷ marks) status (Memᴰ.tail m) =
    let rest = last_mark-Memᴰ key marks status m in ground (arith, rest)

-- The lifecycle status of what a completed request affects is never missing.
affected-erased :
    (requests : List PrivacyRequest) (expirations : List RetentionExpiration) (r : PrivacyRequest)
    (affected : AffectedRecord)
    → Memᴰ r requests
    → r.completed ≡ true
    → Memᴰ affected r.affected_records
    → is_some (
        lookup ⦃e = key_eq⦄
          (evidence_key r.tenant_id r.app_id affected.record_id)
          (privacy_index requests expirations))
      ≡ true
affected-erased rs xs r affected m c n =
    let key = evidence_key r.tenant_id r.app_id affected.record_id in
    let marked = last_mark-Memᴰ key (request_marks rs) _ (request_marks-Memᴰ rs r affected m c n) in
    ground (arith, marked, privacy_index-lookup rs xs key)

-- Whether an output is about the record of a key.
abbrev pub raw_is_of : CompositeKey → RawRecord → Bool
raw_is_of key raw = key_eq.beq (evidence_key raw.tenant_id raw.app_id raw.record_id) key

abbrev pub event_is_of : CompositeKey → LogicalEvent → Bool
event_is_of key e = key_eq.beq (evidence_key e.tenant_id e.app_id e.record_id) key

kept-not_erased :
    (lifecycle : LifecycleIndex) (a : CandidateAttempt) (key : CompositeKey)
    → is_kept lifecycle a ≡ true
    → is_some (lookup ⦃e = key_eq⦄ key lifecycle) ≡ true
    → key_eq.beq (attempt_evidence_key a) key ≡ false
kept-not_erased lifecycle a key k s = elim (Bool-cases (key_eq.beq (attempt_evidence_key a) key)) [
  | inr f ↦ f
  | inl t ↦
      let same = (key_eq.beq_iff (attempt_evidence_key a) key).0 t in
      let there = ap (λ x. is_some (lookup ⦃e = key_eq⦄ x lifecycle)) same in
      ground (arith, k, s, there)
]

make_raw_record-is_of :
    (dg : Digests) (key : CompositeKey) (a : CandidateAttempt) (raw : RawRecord)
    → make_raw_record dg a Lifecycle.available ≡ ok raw
    → raw_is_of key raw ≡ key_eq.beq (attempt_evidence_key a) key
unfolding make_raw_record
make_raw_record-is_of dg key a raw h =
    let (consent, hc, k) = >>=-eq-ok (consent_decision a) _ h in
    sym (ap (λ o. elim o [ ok r ↦ raw_is_of key r | throw e ↦ false ]) k)

module _ (dg : Digests) (od : OutputDigests) (lifecycle : LifecycleIndex) (key : CompositeKey)
    (erased : is_some (lookup ⦃e = key_eq⦄ key lifecycle) ≡ true) where
  raw_records_of-erased :
      (evidence : List CandidateAttempt) (rows : List RawRecord)
      → raw_records_of dg od lifecycle evidence ≡ ok rows
      → any (raw_is_of key) rows ≡ false
  raw_records_of-erased evidence rows h =
      let (made, hm, k) = >>=-eq-ok (map_each _ (filter (is_kept lifecycle) evidence)) _ h in
      let same : sort_by_key od.of_raw_record made raw_record_key ≡ rows = cc k in
      any-none (raw_is_of key) rows (λ raw m.
        let n = sort_by_key-Memᴰ _ raw_record_key made raw (rw (sym same) at m) in
        let (a, q, e) = map_each-Memᴰ _ (filter (is_kept lifecycle) evidence) made raw hm n in
        let (r, kept) = Memᴰ-filter (is_kept lifecycle) evidence a q in
        make_raw_record-is_of dg key a raw e ∙ kept-not_erased lifecycle a key kept erased)

  logical_events_of-erased :
      (accepted : List CandidateAttempt)
      → any (event_is_of key) (logical_events_of dg od lifecycle accepted) ≡ false
  logical_events_of-erased accepted = any-none (event_is_of key) _ (λ e m.
      let (a, n, same) = Memᴰ-map make_logical_event _ e (sort_by_key-Memᴰ _ _ _ e m) in
      let (q, kept) = Memᴰ-filter (is_kept lifecycle) accepted a n in
      ap (event_is_of key) same ∙ kept-not_erased lifecycle a key kept erased)

-- A record that a completed privacy request affects is in no raw record and in no logical event of
-- the ledger that an evaluation gives, whatever else the input holds; the ledger has the tombstone
-- that the request leaves of it, and the correction that redacts it.
pub evaluate_erases :
    (dg : Digests) (od : OutputDigests) (i : Input)
    (factory : List CandidateAttempt → CandidateProvider) (ledger : Ledger) (r : PrivacyRequest)
    (affected : AffectedRecord)
    → evaluate dg od i factory ≡ ok ledger
    → Memᴰ r i.privacy_requests
    → r.completed ≡ true
    → Memᴰ affected r.affected_records
    → (any (raw_is_of (evidence_key r.tenant_id r.app_id affected.record_id)) ledger.raw_records
        ≡ false)
      × (any
            (event_is_of (evidence_key r.tenant_id r.app_id affected.record_id))
            ledger.logical_events
          ≡ false)
      × Memᴰ (tombstone od.of_provenance r affected) ledger.privacy_tombstones
      × Memᴰ (redaction r affected) ledger.corrections
evaluate_erases dg od i factory ledger r affected h m c n =
    let b = evaluate-Built dg od i factory ledger h in
    let key = evidence_key r.tenant_id r.app_id affected.record_id in
    let lifecycle = privacy_index i.privacy_requests i.retention_expirations in
    let gone = affected-erased i.privacy_requests i.retention_expirations r affected m c n in
    rw b.ledger_eq (
      raw_records_of-erased dg od lifecycle key gone _ b.rows b.rows_eq,
      logical_events_of-erased dg od lifecycle key gone b.accepted,
      sort_by_key-keeps-Memᴰ od.of_tombstone _ _ _
          (of_completed-Memᴰ (tombstone od.of_provenance) i.privacy_requests r affected m c n),
      sort_by_key-keeps-Memᴰ od.of_correction _ _ _ (
          Memᴰ.append_right i.correction_inputs (
            Memᴰ.append_right (map refund_correction (filter (is_event "refund") b.accepted))
              (of_completed-Memᴰ redaction i.privacy_requests r affected m c n))),
    )
