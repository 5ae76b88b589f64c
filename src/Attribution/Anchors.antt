-- ===== src/Attribution/Anchors.antt =====
-- `assertInstallationAnchors` of packages/attribution-core/src/evaluator.ts: each installation has
-- one install, and a reinstall names another one.
pub mod Laws
use open_mmp.Common.{
  Bool, true, false, not, ◌||◌, List, [], ◌∷◌, Option, none, some, String, str_eq, opt_eq, truthy,
  any, if◌then◌else◌, Outcome, ok, throw, ◌>>=◌,
}
use open_mmp.Attribution.Types.{InstallType, CandidateAttempt, Digests}
use open_mmp.Attribution.Errors.{
  Error, ambiguous_installation_anchor, invalid_reinstall_anchor, missing_prior_anchor,
  first_install_names_prior,
}
use open_mmp.Attribution.Candidates.{CompositeKey, composite_key, key_eq}
use open_mmp.Attribution.Results.{Decisions, filter_counted}

abbrev pub is_install : CandidateAttempt → Bool
is_install a = str_eq a.event.event_name "install"

-- `evidenceKey` of an installation in the scope of an attempt.
abbrev pub installation_key : CandidateAttempt → Option String → CompositeKey
installation_key a installation_id =
    composite_key (some a.server.tenant_id ∷ some a.server.app_id ∷ installation_id ∷ [])

abbrev pub anchor_of : CandidateAttempt → CompositeKey
anchor_of a = installation_key a a.event.payload.installation_id

abbrev pub is_again : Option InstallType → Bool
is_again (some InstallType.reinstall) = true
is_again (some InstallType.redownload) = true
is_again _ = false

abbrev pub has : List CompositeKey → CompositeKey → Bool
has anchors key = any (λ k. key_eq.beq k key) anchors

-- What is wrong with the prior installation that an install names.
unfoldable pub prior_error : List CandidateAttempt → CandidateAttempt → Option Error
prior_error installs a =
    let prior = a.event.payload.prior_installation_id in
    if is_again a.event.payload.install_type
    then (if not (truthy prior) || opt_eq prior a.event.payload.installation_id
        then some (invalid_reinstall_anchor a.event.record_id)
        else if not (any (λ c. key_eq.beq (anchor_of c) (installation_key a prior)) installs)
        then some (missing_prior_anchor a.event.record_id)
        else none)
    else (if truthy prior then some (first_install_names_prior a.event.record_id) else none)

unfoldable pub anchor_error :
    List CandidateAttempt → List CompositeKey → CandidateAttempt → Option Error
anchor_error installs anchors a =
    if has anchors (anchor_of a)
    then some (ambiguous_installation_anchor a.event.payload.installation_id)
    else prior_error installs a

abbrev pub unless_error : Option Error → Outcome Error (Unit {0}) → Outcome Error (Unit {0})
unless_error none later = later
unless_error (some e) later = throw e

-- The loop, with the anchors seen so far.
unfoldable pub check_anchors :
    List CandidateAttempt → List CandidateAttempt → List CompositeKey → Outcome Error (Unit {0})
check_anchors installs [] anchors = ok tt
check_anchors installs (a ∷ rest) anchors =
    let later = check_anchors installs rest (anchor_of a ∷ anchors) in
    unless_error (anchor_error installs anchors a) later

unfoldable pub assert_installation_anchors :
    Digests → List CandidateAttempt → Decisions → Outcome Error (Unit {0})
assert_installation_anchors dg attempts decisions = do
  installs ← filter_counted dg decisions is_install attempts
  check_anchors installs installs []
