-- ===== src/Health/Types.antt =====
-- The data classes and constants of syvert/resource_health.py.
use syvert.Common.{String, Bool, Option, List, [], ◌∷◌}
use syvert.Json.{Value, Fields}

abbrev pub healthy : String
healthy = "healthy"

abbrev pub stale : String
stale = "stale"

abbrev pub session_invalid : String
session_invalid = "invalid"

abbrev pub unknown : String
unknown = "unknown"

abbrev pub session_health_values : List String
session_health_values = healthy ∷ stale ∷ session_invalid ∷ unknown ∷ []

abbrev pub evidence_statuses : List String
evidence_statuses = healthy ∷ stale ∷ session_invalid ∷ []

abbrev pub provenance_values : List String
provenance_values =
    "core_validation" ∷ "adapter_diagnostic" ∷ "provider_response_projection" ∷ "operator_assertion"
    ∷ []

abbrev pub admitted : String
admitted = "admitted"

abbrev pub rejected : String
rejected = "rejected"

abbrev pub invalid_contract : String
invalid_contract = "invalid_contract"

abbrev pub decision_statuses : List String
decision_statuses = admitted ∷ rejected ∷ invalid_contract ∷ []

abbrev pub credential_session_invalid : String
credential_session_invalid = "credential_session_invalid"

abbrev pub health_evidence_contract_invalid : String
health_evidence_contract_invalid = "health_evidence_contract_invalid"

abbrev pub split_release_reason : String
split_release_reason = "credential_session_invalid_release_before_account_invalidation"

abbrev pub evidence_fields : List String
evidence_fields =
    "evidence_id" ∷ "resource_id" ∷ "resource_type" ∷ "status" ∷ "observed_at" ∷ "provenance"
    ∷ "reason" ∷ "redaction_status" ∷ "expires_at" ∷ "freshness_policy_ref" ∷ "task_id" ∷ "lease_id"
    ∷ "bundle_id" ∷ "adapter_key" ∷ "capability" ∷ "operation" ∷ "diagnostic_ref" ∷ []

pub record CredentialMaterial : Type 0 where
  pub resource_id : String
  pub adapter_key : String
  pub material : Fields

pub record ResourceHealthEvidence : Type 0 where
  pub evidence_id : String
  pub resource_id : String
  pub resource_type : String
  pub status : String
  pub observed_at : String
  pub provenance : String
  pub reason : String
  pub redaction_status : String
  pub expires_at : Option String
  pub freshness_policy_ref : Option String
  pub task_id : Option String
  pub lease_id : Option String
  pub bundle_id : Option String
  pub adapter_key : Option String
  pub capability : Option String
  pub operation : Option String
  pub diagnostic_ref : Option String

-- `ResourceHealthEvidence | Mapping[str, Any]`
pub data Supplied : Type 0 where
  evidence : ResourceHealthEvidence → Supplied
  payload : Value → Supplied

pub record ResourceAdmissionDecision : Type 0 where
  pub decision_id : String
  pub task_id : String
  pub adapter_key : String
  pub capability : String
  pub operation : Option String
  pub requested_slots : List String
  pub resource_ids : List String
  pub health_evidence_refs : List String
  pub evaluated_at : String
  pub projected_session_health : String
  pub decision_status : String
  pub failure_reason : Option String
  pub fail_closed : Bool
