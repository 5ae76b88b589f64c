-- ===== src/Attribution/Inputs/Laws.antt =====
-- Which inputs pass the checks.
use mathlib.Core.List.{Memᴰ}
use mathlib.Core.Path.{subst}
use open_mmp.Common.{
  and_then_iff, eq_iff, ◌≡◌, ◌↔◌, inl, inr, refl, Bool, true, false, not, List, [], ◌∷◌, some,
  String, opt_eq_iff, find, ok, arith, All, Bool-cases, Option-cases,
}
use open_mmp.Common.Members.{any_iff}
use open_mmp.Attribution.Types.{CandidateAttempt}
use open_mmp.Attribution.Lifecycle.{AffectedRecord, PrivacyRequest, RetentionExpiration}
use open_mmp.Attribution.Inputs.{
  InputError, Check, fail_if, check_each, CorrectionInput, is_record, exists, check_target,
  check_privacy_request, check_correction, check_expiration, is_refund, check_refund,
  assert_scoped_references,
}

fail_if_iff : (b : Bool) (e : InputError) → (fail_if b e ≡ ok tt) ↔ (b ≡ false)
fail_if_iff b e = ground arith

check_each_iff {ℓ} :
    {A : Type ℓ} (P : A → Type 0) (check : A → Check) (xs : List A)
    → ((x : A) → (check x ≡ ok tt) ↔ P x)
    → (check_each check xs ≡ ok tt) ↔ All P xs
unfolding check_each
check_each_iff P check [] f = (λ _. tt, λ _. refl)
check_each_iff P check (x ∷ xs) f =
    let (to, from) = and_then_iff (check x) (check_each check xs) in
    let (down, up) = check_each_iff P check xs f in
    (λ h. ((f x).0 (to h).0, down (to h).1), λ (p, ps). from ((f x).1 p, up ps))

-- An attempt of the scope with the record id.
abbrev pub InScope : String → String → String → CandidateAttempt → Type 0
InScope tenant_id app_id record_id x =
    (x.server.tenant_id ≡ tenant_id) × (x.server.app_id ≡ app_id) × (x.event.record_id ≡ record_id)

is_record_iff :
    (tenant_id app_id record_id : String) (x : CandidateAttempt)
    → (is_record tenant_id app_id record_id x ≡ true) ↔ InScope tenant_id app_id record_id x
is_record_iff t p r x =
    ground
      (arith, eq_iff x.server.tenant_id t, eq_iff x.server.app_id p, eq_iff x.event.record_id r)

module _ (all : List CandidateAttempt) where
  -- A record of the scope is among the attempts.
  abbrev pub IsPresent : String → String → String → Type 0
  IsPresent tenant_id app_id record_id =
      (x : CandidateAttempt) × Memᴰ x all × InScope tenant_id app_id record_id x

  -- The first attempt of the request's scope with the record id is there; and if the request was
  -- made on a device, it is of the installation that is to be deleted.
  abbrev pub IsTargeted : PrivacyRequest → AffectedRecord → Type 0
  IsTargeted r affected =
      (x : CandidateAttempt) × (find (is_record r.tenant_id r.app_id affected.record_id) all
        ≡ some x)
      × (r.requested_on_device ≡ true → x.event.payload.installation_id ≡ r.deletion_subject_ref)

  exists_iff : (t p r : String) → (exists all t p r ≡ true) ↔ IsPresent t p r
  exists_iff t p r = any_iff (is_record t p r) (InScope t p r) all (is_record_iff t p r)

  check_target_iff :
      (r : PrivacyRequest) (affected : AffectedRecord)
      → (check_target all r affected (find (is_record r.tenant_id r.app_id affected.record_id) all)
          ≡ ok tt)
        ↔ IsTargeted r affected
  check_target_iff r affected =
      elim (Option-cases (find (is_record r.tenant_id r.app_id affected.record_id) all)) [
        | inl e ↦ (λ h. cc (rw e at h), λ (x, f, _). cc)
        | inr (x, e) ↦
            let same = opt_eq_iff x.event.payload.installation_id r.deletion_subject_ref in
            (
              λ h. (x, e, λ d. ground (arith, same, rw e at h)),
              λ (y, f, k).
                  let at : x ≡ y = cc in
                  rw f (
                    ground (
                      arith,
                      opt_eq_iff y.event.payload.installation_id r.deletion_subject_ref,
                      k,
                    )),
            )
      ]

  privacy_request_iff :
      (r : PrivacyRequest)
      → (check_privacy_request all r ≡ ok tt) ↔ All (IsTargeted r) r.affected_records
  unfolding check_privacy_request
  privacy_request_iff r = check_each_iff (IsTargeted r) _ r.affected_records (check_target_iff r)

  -- A refund names a record of its scope.
  abbrev pub HasTarget : CandidateAttempt → Type 0
  HasTarget a =
      is_refund all a ≡ true
      → (target : String) × (a.event.payload.correction_target_record_id ≡ some target)
        × IsPresent a.server.tenant_id a.server.app_id target

  reference_iff :
      (t p r : String) (e : InputError)
      → (fail_if (not (exists all t p r)) e ≡ ok tt) ↔ IsPresent t p r
  reference_iff t p r e =
      let (to, from) = exists_iff t p r in
      (λ h. to (ground arith), λ q. let there = from q in ground arith)

  refund_iff : (a : CandidateAttempt) → (check_refund all a ≡ ok tt) ↔ HasTarget a
  refund_iff a = elim (Option-cases a.event.payload.correction_target_record_id) [
    | inl e ↦ (
      λ h refund. absurd (ground (arith, rw e at h)),
      λ k. elim (Bool-cases (is_refund all a)) [
        | inl t ↦ let (x, f, _) = k t in cc
        | inr t ↦ ground arith
      ],
    )
    | inr (target, e) ↦
        let (to, from) = exists_iff a.server.tenant_id a.server.app_id target in
        (
          λ h refund. (target, e, to (ground (arith, rw e at h))),
          λ k. elim (Bool-cases (is_refund all a)) [
            | inl t ↦
                let (x, f, q) = k t in
                let same : x ≡ target = cc in
                let there = from (subst (IsPresent a.server.tenant_id a.server.app_id) same q) in
                rw e (ground arith)
            | inr t ↦ ground arith
          ],
        )
  ]

  -- The references of an input pass exactly if each record that a privacy request affects is among
  -- the attempts of the request's tenant and app (and, for a request made on a device, is of the
  -- installation to be deleted), and each correction, expiration and refund names an attempt of
  -- its own tenant and app.
  pub assert_scoped_references_iff :
      (requests : List PrivacyRequest) (corrections : List CorrectionInput)
      (expirations : List RetentionExpiration)
      → (assert_scoped_references all requests corrections expirations ≡ ok tt) ↔ (
          All (λ r. All (IsTargeted r) r.affected_records) requests
          × All (λ c. IsPresent c.tenant_id c.app_id c.corrects_record_id) corrections
          × All (λ x. IsPresent x.tenant_id x.app_id x.record_id) expirations
          × All HasTarget all)
  unfolding assert_scoped_references
  assert_scoped_references_iff rs cs xs =
      let r = check_each_iff _ (check_privacy_request all) rs privacy_request_iff in
      let c =
        check_each_iff (λ c. IsPresent c.tenant_id c.app_id c.corrects_record_id)
          (check_correction all) cs (λ c. reference_iff _ _ _ _) in
      let x =
        check_each_iff (λ c. IsPresent c.tenant_id c.app_id c.record_id) (check_expiration all) xs
          (λ c. reference_iff _ _ _ _) in
      let f = check_each_iff HasTarget (check_refund all) all refund_iff in
      let i = and_then_iff (check_each (check_privacy_request all) rs) _ in
      let j = and_then_iff (check_each (check_correction all) cs) _ in
      let k =
        and_then_iff (check_each (check_expiration all) xs) (check_each (check_refund all) all) in
      (
        λ h.
            let (h₁, t₁) = i.0 h in
            let (h₂, t₂) = j.0 t₁ in let (h₃, h₄) = k.0 t₂ in (r.0 h₁, c.0 h₂, x.0 h₃, f.0 h₄),
        λ (p, q, s, u). i.1 (r.1 p, j.1 (c.1 q, k.1 (x.1 s, f.1 u))),
      )
