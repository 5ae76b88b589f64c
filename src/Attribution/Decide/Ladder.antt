-- ===== src/Attribution/Decide/Ladder.antt =====
-- The ladder of rejections: when it ends without a reason.
use open_mmp.Common.{
  ℕ, ◌≤◌, ◌≡◌, ◌≢◌, ◌↔◌, inl, inr, refl, sym, ◌∙◌, Bool, true, false, Option, none, some, eq_iff,
  ltb, truthy, ok, >>=-eq-ok, arith, Bool-cases,
}
use open_mmp.Instant.{to_instant}
use open_mmp.Attribution.Types.{StalePolicy, CandidateAttempt}
use open_mmp.Attribution.Errors.{time}
use open_mmp.Attribution.Consent.{ConsentDecision}
use open_mmp.Attribution.Consent.Basis.{time-eq-ok}
use open_mmp.Attribution.Decide.{
  DuplicateResolution, ReasonCode, Decision, is_stale, late_reason, is_scope_mismatch, is_collision,
  rejection_reason,
}

-- An event that occurred no earlier than the policy's bound, if there is a policy.
abbrev pub IsFresh : CandidateAttempt → Option StalePolicy → Type 0
IsFresh a pol =
    (p : StalePolicy)
    → pol ≡ some p
    → (t b : ℕ) → to_instant a.event.occurred_at ≡ some t
    → to_instant p.before ≡ some b
    → b ≤ t

is_stale-IsFresh :
    (a : CandidateAttempt) (pol : Option StalePolicy) (s : Bool)
    → is_stale a pol ≡ ok s
    → (s ≡ false) ↔ IsFresh a pol
is_stale-IsFresh a none s h = (λ _ p e. cc, λ _. cc)
is_stale-IsFresh a (some p) s h =
    let (t, ht, h₁) = >>=-eq-ok (time (some a.event.occurred_at) "occurred_at") _ h in
    let (b, hb, h₂) = >>=-eq-ok (time (some p.before) "timestamp_stale_policy.before") _ h₁ in
    let et = time-eq-ok _ _ ht in
    let eb = time-eq-ok _ _ hb in
    let test : ltb t b ≡ s = cc h₂ in
    (
      λ no q e t' b' ht' hb'.
          let same : p ≡ q = cc in
          let sb : to_instant q.before ≡ some b = rw (← same) eb in
          let tt' : t ≡ t' = ground (arith, et, ht') in
          let bb' : b ≡ b' = ground (arith, sb, hb') in ground arith,
      λ fresh. let le = fresh p refl t b et eb in ground arith,
    )

-- What an accepted attempt meets.
pub record Admissible (a : CandidateAttempt) (d : Decision) : Type 0 where
  pub tenant : a.event.tenant_id ≡ a.server.tenant_id
  pub app : a.event.app_id ≡ a.server.app_id
  pub no_collision : d.duplicate_resolution ≢ DuplicateResolution.record_id_collision
  pub no_conflict : d.duplicate_resolution ≢ DuplicateResolution.event_id_conflict
  pub consented : d.consent.allowed ≡ true
  pub fresh : IsFresh a a.server.timestamp_stale_policy
  pub no_join :
      ¬ ((a.event.aggregate_scope ≡ true) × (truthy a.event.payload.installation_id ≡ true))

-- Where the ladder of reasons ends.
pub data Rung (a : CandidateAttempt) (dup : DuplicateResolution) (consent : ConsentDecision)
    (r : Option ReasonCode) : Type 0 where
  mismatch :
      is_scope_mismatch a ≡ true → r ≡ some ReasonCode.client_scope_mismatch → Rung a dup consent r
  collision :
      is_scope_mismatch a ≡ false
      → is_collision dup ≡ true
      → r ≡ some ReasonCode.record_id_collision
      → Rung a dup consent r
  refused :
      is_scope_mismatch a ≡ false
      → is_collision dup ≡ false
      → consent.allowed ≡ false
      → r ≡ some ReasonCode.consent_withdrawn
      → Rung a dup consent r
  later :
      (s : Bool)
      → is_scope_mismatch a ≡ false
      → is_collision dup ≡ false
      → consent.allowed ≡ true
      → is_stale a a.server.timestamp_stale_policy ≡ ok s
      → r ≡ late_reason a dup s
      → Rung a dup consent r

pub rejection_reason-Rung :
    (a : CandidateAttempt) (dup : DuplicateResolution) (consent : ConsentDecision)
    (r : Option ReasonCode)
    → rejection_reason a dup consent ≡ ok r
    → Rung a dup consent r
unfolding rejection_reason
rejection_reason-Rung a dup consent r h = elim (Bool-cases (is_scope_mismatch a)) [
  | inl m ↦ mismatch m (cc (rw m at h))
  | inr m ↦ elim (Bool-cases (is_collision dup)) [
    | inl k ↦ collision m k (cc (rw (m, k) at h))
    | inr k ↦ elim (Bool-cases consent.allowed) [
      | inr w ↦ refused m k w (cc (rw (m, k, w) at h))
      | inl w ↦
          let (s, stale, e) =
            >>=-eq-ok (is_stale a a.server.timestamp_stale_policy) _ (rw (m, k, w) at h) in
          later s m k w stale (cc e)
    ]
  ]
]

same_scope :
    (a : CandidateAttempt)
    → (is_scope_mismatch a ≡ false)
      ↔ ((a.event.tenant_id ≡ a.server.tenant_id) × (a.event.app_id ≡ a.server.app_id))
same_scope a =
    ground
      (arith, eq_iff a.event.tenant_id a.server.tenant_id, eq_iff a.event.app_id a.server.app_id)

is_collision-false :
    (dup : DuplicateResolution)
    → (is_collision dup ≡ false) ↔ (dup ≢ DuplicateResolution.record_id_collision)
is_collision-false DuplicateResolution.record_id_collision = ground arith
is_collision-false _ = ground arith

late_reason-none :
    (a : CandidateAttempt) (dup : DuplicateResolution) (s : Bool)
    → (late_reason a dup s ≡ none) ↔ (
        (s ≡ false)
        × (¬ ((a.event.aggregate_scope ≡ true) × (truthy a.event.payload.installation_id ≡ true)))
        × (dup ≢ DuplicateResolution.event_id_conflict))
late_reason-none a DuplicateResolution.event_id_conflict s = ground arith
late_reason-none a _ s = ground arith

pub reason-none_iff :
    (a : CandidateAttempt) (d : Decision)
    → Rung a d.duplicate_resolution d.consent d.reason_code
    → (d.reason_code ≡ none) ↔ Admissible a d
reason-none_iff a d (mismatch m r) = (λ e. cc, λ k. cc ((same_scope a).1 (k.tenant, k.app)))
reason-none_iff a d (collision m k r) =
    (λ e. cc, λ x. cc ((is_collision-false d.duplicate_resolution).1 x.no_collision))
reason-none_iff a d (refused m k w r) = (λ e. cc, λ x. cc (x.consented))
reason-none_iff a d (later s m k w stale r) =
    let fresh = is_stale-IsFresh a a.server.timestamp_stale_policy s stale in
    let last = late_reason-none a d.duplicate_resolution s in
    (
      λ e.
          let (t, j, c) = last.0 (sym r ∙ e) in
          record {
            tenant = ((same_scope a).0 m).0;
            app = ((same_scope a).0 m).1;
            no_collision = (is_collision-false d.duplicate_resolution).0 k;
            no_conflict = c;
            consented = w;
            fresh = fresh.0 t;
            no_join = j;
          },
      λ x. r ∙ last.1 (fresh.1 x.fresh, x.no_join, x.no_conflict),
    )
