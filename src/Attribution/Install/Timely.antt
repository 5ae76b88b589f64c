-- ===== src/Attribution/Install/Timely.antt =====
-- When the times of a click and an install match: what `makeAttribution` asks of a single click.
use open_mmp.Common.{
  ℕ, ◌+◌, ◌≤◌, ◌<◌, ◌≡◌, inl, inr, refl, true, false, ◌||◌, List, [], ◌∷◌, Option, none, some,
  String, str_eq, eq_iff, truthy, ok, >>=-eq-ok, arith, Bool-cases,
}
use open_mmp.Instant.{to_instant}
use open_mmp.Attribution.Types.{TimeStatus, Model, CandidateAttempt}
use open_mmp.Attribution.Errors.{time, known_or}
use open_mmp.Attribution.Consent.Basis.{time-eq-ok}
use open_mmp.Attribution.Results.{non_organic, Method, AttributionReason}
use open_mmp.Attribution.Verdicts.{Verdict, verdict, with_click, unmatched}
use open_mmp.Attribution.Install.{
  in_window, window_ms, timed_verdict, has_times, single_click_verdict, clicks_verdict,
  click_status, install_status, is_invalid, is_available,
}

abbrev pub valid : AttributionReason
valid = AttributionReason.valid_install_referrer

abbrev pub matched : CandidateAttempt → Verdict
matched click =
    with_click (some click.event.record_id)
      (verdict non_organic Method.install_referrer Model.last_click valid)

-- The click and the install, in that order, less than seven days apart by authoritative times.
pub record IsTimely (a click : CandidateAttempt) : Type 0 where
  pub no_prefetch : click.event.payload.bot_prefetch ≡ false
  pub click_time : is_available (click_status click.event.payload) ≡ true
  pub install_time : is_available (install_status a.event.payload) ≡ true
  pub begun_at : String
  pub clicked_at : String
  pub begun : ℕ
  pub clicked : ℕ
  pub begins : a.event.payload.install_begin_at_server ≡ some begun_at
  pub clicks : click.event.payload.redirector_click_at ≡ some clicked_at
  pub begin_instant : to_instant begun_at ≡ some begun
  pub click_instant : to_instant clicked_at ≡ some clicked
  pub after : clicked ≤ begun
  pub within : begun < clicked + window_ms

pub time_inv :
    (o : Option String) (field : String) {t : ℕ}
    → time o field ≡ ok t
    → (s : String) × (o ≡ some s) × (to_instant s ≡ some t)
unfolding time
time_inv none field h = cc
time_inv (some s) field h = (s, refl, unfold time in time-eq-ok s field h)

-- The times of the two, if the comparison comes out for the click.
pub timed_verdict_sound :
    (a click : CandidateAttempt) (v : Verdict)
    → timed_verdict a click ≡ ok v
    → v.reason_code ≡ valid
    → (click.event.payload.bot_prefetch ≡ false)
    → has_times a click ≡ true
    → (v ≡ matched click) × IsTimely a click
unfolding timed_verdict
timed_verdict_sound a click v h r prefetch times =
    let (begun, hb, h₁) =
      >>=-eq-ok (time a.event.payload.install_begin_at_server "install_begin_at_server") _ h in
    let (clicked, hc, h₂) =
      >>=-eq-ok (time click.event.payload.redirector_click_at "redirector_click_at") _ h₁ in
    let (b, begins, bi) = time_inv _ _ hb in
    let (c, clicks, ci) = time_inv _ _ hc in
    elim (Bool-cases (in_window clicked begun)) [
      | inr o ↦
          let same : unmatched AttributionReason.window_expired ≡ v = cc (rw o at h₂) in absurd cc
      | inl o ↦ (
        cc (rw o at h₂),
        record {
          no_prefetch = prefetch;
          click_time = ground arith;
          install_time = ground arith;
          begun_at = b;
          clicked_at = c;
          begun = begun;
          clicked = clicked;
          begins = begins;
          clicks = clicks;
          begin_instant = bi;
          click_instant = ci;
          after = ground arith;
          within = ground arith;
        },
      )
    ]

pub single_click_verdict_sound :
    (a click : CandidateAttempt) (v : Verdict)
    → single_click_verdict a click ≡ ok v
    → v.reason_code ≡ valid
    → (v ≡ matched click) × IsTimely a click
unfolding single_click_verdict timed_verdict
single_click_verdict_sound a click v h r = elim (Bool-cases click.event.payload.bot_prefetch) [
  | inl b ↦
      let same : with_click (some click.event.record_id) (unmatched AttributionReason.bot_prefetch)
          ≡ v =
        cc (rw b at h) in
      absurd cc
  | inr b ↦
      elim (Bool-cases (
        is_invalid (click_status click.event.payload)
        || is_invalid (install_status a.event.payload))) [
          | inl i ↦
              let same : unmatched AttributionReason.authoritative_time_invalid ≡ v =
                cc (rw (b, i) at h) in
              absurd cc
          | inr i ↦ elim (Bool-cases (has_times a click)) [
            | inr t ↦
                let same : unmatched AttributionReason.authoritative_time_missing ≡ v =
                  cc (rw (b, i, t) at h) in
                absurd cc
            | inl t ↦ timed_verdict_sound a click v (rw (b, i, t) at h) r b t
          ]
        ]
]

pub clicks_verdict_sound :
    (a : CandidateAttempt) (clicks : List CandidateAttempt) (v : Verdict)
    → clicks_verdict a clicks ≡ ok v
    → v.reason_code ≡ valid
    → (click : CandidateAttempt) × (clicks ≡ click ∷ []) × (v ≡ matched click) × IsTimely a click
clicks_verdict_sound a [] v h r =
    let same : unmatched AttributionReason.unknown_click_id ≡ v = cc h in absurd cc
clicks_verdict_sound a (click ∷ []) v h r =
    let (m, t) = single_click_verdict_sound a click v h r in (click, refl, m, t)
clicks_verdict_sound a (_ ∷ _ ∷ _) v h r =
    let same : unmatched AttributionReason.ambiguous_click_id ≡ v = cc h in absurd cc

pub truthy_of_instant : (s : String) {t : ℕ} → to_instant s ≡ some t → truthy (some s) ≡ true
unfolding to_instant
truthy_of_instant s h = elim (Bool-cases (str_eq s "")) [
  | inr e ↦ rw e
  | inl e ↦ absurd (cc (rw ((eq_iff s "").0 e) at h))
]

pub not_invalid : (s : TimeStatus) → is_available s ≡ true → is_invalid s ≡ false
not_invalid TimeStatus.available h = refl
not_invalid _ h = cc

pub has_times_of : (a click : CandidateAttempt) → IsTimely a click → has_times a click ≡ true
has_times_of a click m =
    let c : truthy click.event.payload.redirector_click_at ≡ true =
      rw m.clicks (truthy_of_instant m.clicked_at m.click_instant) in
    let b : truthy a.event.payload.install_begin_at_server ≡ true =
      rw m.begins (truthy_of_instant m.begun_at m.begin_instant) in
    rw (m.click_time, m.install_time, c, b)

pub in_window_of :
    (clicked begun : ℕ)
    → clicked ≤ begun
    → begun < clicked + window_ms
    → in_window clicked begun ≡ true
in_window_of clicked begun h k = ground arith

pub timed_verdict_complete :
    (a click : CandidateAttempt) → IsTimely a click → timed_verdict a click ≡ ok (matched click)
unfolding timed_verdict time
timed_verdict_complete a click m = rw (
  m.begins,
  m.clicks,
  m.begin_instant,
  m.click_instant,
  known_or,
  in_window_of m.clicked m.begun m.after m.within,
)

pub single_click_verdict_complete :
    (a click : CandidateAttempt)
    → IsTimely a click
    → single_click_verdict a click ≡ ok (matched click)
unfolding single_click_verdict timed_verdict
single_click_verdict_complete a click m =
    rw
      (
        m.no_prefetch,
        not_invalid _ m.click_time,
        not_invalid _ m.install_time,
        has_times_of a click m,
      )
      (timed_verdict_complete a click m)
