-- ===== src/Attribution/Lifecycle.antt =====
-- `privacyIndex` of packages/attribution-core/src/evaluator.ts: what completed privacy requests and
-- expired retention leave of each piece of evidence.
pub mod Laws
use open_mmp.Common.{Bool, List, [], ◌∷◌, Option, String, insert, if◌then◌else◌}
use open_mmp.Attribution.Candidates.{CompositeKey, key_eq}
use open_mmp.Attribution.Results.{Lifecycle, purged, LifecycleIndex, evidence_key}

pub record AffectedRecord : Type 0 where
  pub record_id : String
  pub lifecycle_status : Lifecycle

pub record PrivacyRequest : Type 0 where
  pub privacy_request_id : String
  pub tenant_id : String
  pub app_id : String
  pub completed : Bool  -- status === "completed"
  pub requested_on_device : Bool  -- requested_via === "on_device_sdk"
  pub deletion_subject_ref : Option String
  pub reason_code : String
  pub policy_version : String
  pub completed_at : Option String
  pub affected_records : List AffectedRecord

pub record RetentionExpiration : Type 0 where
  pub tenant_id : String
  pub app_id : String
  pub record_id : String

-- `result.set`.
abbrev pub mark : CompositeKey → Lifecycle → LifecycleIndex → LifecycleIndex
mark key status index = insert ⦃e = key_eq⦄ key status index

-- The three loops, each over what is left of its list.
unfoldable pub mark_affected :
    String → String → List AffectedRecord → LifecycleIndex → LifecycleIndex
mark_affected tenant_id app_id [] index = index
mark_affected tenant_id app_id (a ∷ rest) index =
    mark_affected tenant_id app_id rest
      (mark (evidence_key tenant_id app_id a.record_id) a.lifecycle_status index)

unfoldable pub mark_requests : List PrivacyRequest → LifecycleIndex → LifecycleIndex
mark_requests [] index = index
mark_requests (r ∷ rs) index =
    mark_requests rs
      (if r.completed then mark_affected r.tenant_id r.app_id r.affected_records index else index)

unfoldable pub mark_expirations : List RetentionExpiration → LifecycleIndex → LifecycleIndex
mark_expirations [] index = index
mark_expirations (x ∷ xs) index =
    mark_expirations xs (mark (evidence_key x.tenant_id x.app_id x.record_id) purged index)

unfoldable pub privacy_index : List PrivacyRequest → List RetentionExpiration → LifecycleIndex
privacy_index requests expirations = mark_expirations expirations (mark_requests requests [])
