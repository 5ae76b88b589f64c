-- ===== src/Attribution/Inputs.antt =====
-- The checks that `evaluate` of packages/attribution-core/src/evaluator.ts makes of its input:
-- `assertImportProviderContexts`, `assertRevenueAnchorSources` and `assertScopedReferences`; and
-- `attempts`, which lays the input out.
pub mod Laws
use Prim.Native.String
use text.Mathlib.Text.{starts_with}
use open_mmp.Common.{
  Bool, true, false, not, ◌&&◌, ◌||◌, List, [], ◌∷◌, ◌++◌, map, Option, none, some, String, str_eq,
  opt_eq, any, find, is_some, if◌then◌else◌, Outcome, ok, throw, ◌>>=◌, ◌>>◌,
}
use open_mmp.Attribution.Types.{Server, Record, ImportContext, CandidateAttempt}
use open_mmp.Attribution.Lifecycle.{AffectedRecord, PrivacyRequest, RetentionExpiration}

pub data InputError : Type 0 where
  import_provider_mismatch anchor_source_not_postback : InputError
  missing_privacy_reference other_installation_targeted :
      (privacy_request_id record_id : String) → InputError
  missing_correction_reference missing_retention_reference missing_refund_target :
      String → InputError

pub record Batch : Type 0 where
  pub server_context : Server
  pub records : List Record
  pub batch_id : String

-- `attempts` of an input with batches.
unfoldable pub attempts : List Batch → List CandidateAttempt
attempts [] = []
attempts (b ∷ batches) =
    map (λ r. record { server = b.server_context; event = r; batch_id = b.batch_id }) b.records
    ++ attempts batches

-- An input without batches is one batch.
abbrev pub single_batch : Server → List Record → List Batch
single_batch server records =
    record { server_context = server; records = records; batch_id = "batch-default" } ∷ []

-- A correction that the input brings, and that an evaluation makes itself.
pub record CorrectionInput : Type 0 where
  pub tenant_id : String
  pub app_id : String
  pub correction_id : String
  pub corrects_record_id : String
  pub correction_type : String
  pub correction_reason : String
  pub effective_at : Option String

abbrev pub Check : Type 0
Check = Outcome InputError (Unit {0})

abbrev pub fail_if : Bool → InputError → Check
fail_if true e = throw e
fail_if false e = ok tt

-- `for … of`, with a body that may throw.
unfoldable pub check_each {ℓ} : {A : Type ℓ} → (A → Check) → List A → Check
check_each check [] = ok tt
check_each check (x ∷ xs) = do check x; check_each check xs

abbrev pub is_foreign_import : String → Option ImportContext → Bool
is_foreign_import producer none = false
is_foreign_import producer (some c) =
    starts_with producer "import:" && not (str_eq producer (String.◌++◌ "import:" c.provider))

unfoldable pub assert_import_provider_contexts : List CandidateAttempt → Check
unfolding check_each
assert_import_provider_contexts = check_each λ a.
    fail_if (is_foreign_import a.event.producer a.event.payload.import_context)
      import_provider_mismatch

unfoldable pub assert_revenue_anchor_sources : List CandidateAttempt → Check
unfolding check_each
assert_revenue_anchor_sources = check_each λ a.
    fail_if
      (str_eq a.event.event_name "ad_revenue"
        && is_some a.event.payload.anchor_source
        && not (starts_with a.event.producer "postback:"))
      anchor_source_not_postback

-- The record that a reference of a scope names.
abbrev pub is_record : String → String → String → CandidateAttempt → Bool
is_record tenant_id app_id record_id a =
    str_eq a.server.tenant_id tenant_id
    && str_eq a.server.app_id app_id
    && str_eq a.event.record_id record_id

module _ (all : List CandidateAttempt) where
  -- `exists`.
  abbrev pub exists : String → String → String → Bool
  exists tenant_id app_id record_id = any (is_record tenant_id app_id record_id) all

  abbrev pub check_target : PrivacyRequest → AffectedRecord → Option CandidateAttempt → Check
  check_target request affected none =
      throw (missing_privacy_reference request.privacy_request_id affected.record_id)
  check_target request affected (some target) =
      fail_if
        (request.requested_on_device
          && not (opt_eq target.event.payload.installation_id request.deletion_subject_ref))
        (other_installation_targeted request.privacy_request_id affected.record_id)

  unfoldable pub check_privacy_request : PrivacyRequest → Check
  unfolding check_each
  check_privacy_request request =
      check_each
        (λ affected.
          check_target request affected
            (find (is_record request.tenant_id request.app_id affected.record_id) all))
        request.affected_records

  abbrev pub check_correction : CorrectionInput → Check
  check_correction c =
      fail_if (not (exists c.tenant_id c.app_id c.corrects_record_id))
        (missing_correction_reference c.correction_id)

  abbrev pub check_expiration : RetentionExpiration → Check
  check_expiration x =
      fail_if (not (exists x.tenant_id x.app_id x.record_id))
        (missing_retention_reference x.record_id)

  abbrev pub is_refund : CandidateAttempt → Bool
  is_refund a = str_eq a.event.event_name "refund"

  -- A refund without a target is a reference to no record.
  abbrev pub has_target : CandidateAttempt → Option String → Bool
  has_target a none = false
  has_target a (some target) = exists a.server.tenant_id a.server.app_id target

  abbrev pub check_refund : CandidateAttempt → Check
  check_refund a =
      fail_if (is_refund a && not (has_target a a.event.payload.correction_target_record_id))
        (missing_refund_target a.event.record_id)

  unfoldable pub assert_scoped_references :
      List PrivacyRequest → List CorrectionInput → List RetentionExpiration → Check
  unfolding check_each check_privacy_request
  assert_scoped_references requests corrections expirations = do
    check_each check_privacy_request requests
    check_each check_correction corrections
    check_each check_expiration expirations
    check_each check_refund all
