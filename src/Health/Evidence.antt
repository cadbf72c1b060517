-- ===== src/Health/Evidence.antt =====
-- `ResourceHealthEvidence` of syvert/resource_health.py: its validator and its JSON form.
pub mod Faults
pub mod RoundTrip
use syvert.Common.{
  String, Bool, true, false, not, ◌&&◌, Option, none, some, List, [], ◌∷◌, ◌==◌, leb, is_empty, has,
  Error, Result, ok, err, health_contract, Check, pass, require, forbid, each, ◌>>=◌, ◌>>◌,
  if◌then◌else◌, ℕ,
}
use syvert.Json.{Value, Fields, null, text, obj, no_fields, field, item}
use syvert.Time.{parse_lifecycle_time}
use syvert.Health.Types.{
  ResourceHealthEvidence, Supplied, healthy, evidence_statuses, provenance_values, evidence_fields,
}
use syvert.Health.Redaction.{Unicode, reject_private_tokens}

-- A `ResourceLifecycleContractError` is raised again as a `ResourceHealthContractError`.
unfoldable pub as_health {ℓ} : {A : Type ℓ} → Result A → Result A
as_health (ok a) = ok a
as_health (err e) = err health_contract

unfoldable pub parse_health_time : String → Result ℕ
unfolding as_health
parse_health_time value = as_health (parse_lifecycle_time value)

-- `_require_non_empty_string` of a text, of an attribute that may be `None`, and of a value
unfoldable pub require_health_text : String → Check
require_health_text s = require (not (is_empty s)) health_contract

unfoldable pub require_given : Option String → Check
unfolding require_health_text
require_given none = err health_contract
require_given (some s) = require_health_text s

unfoldable pub text_value : Value → Result String
unfolding require_health_text
text_value (text s) = do require_health_text s; ok s
text_value _ = err health_contract

-- `_optional_non_empty_string`
unfoldable pub optional_given : Option String → Check
unfolding require_health_text
optional_given none = pass
optional_given (some s) = require_health_text s

unfoldable pub optional_value : Value → Result (Option String)
unfolding text_value
optional_value null = ok none
optional_value v = do s ← text_value v; ok (some s)

unfoldable pub check_expiry : String → Option String → Check
check_expiry observed_at none = pass
check_expiry observed_at (some expires_at) = do
  expires ← parse_health_time expires_at
  observed ← parse_health_time observed_at
  forbid (leb expires observed) health_contract

-- the attributes that the loop of the validator goes through
abbrev pub context_attributes : ResourceHealthEvidence → List (Option String)
context_attributes e =
    e.task_id ∷ e.lease_id ∷ e.bundle_id ∷ e.adapter_key ∷ e.capability ∷ e.operation
    ∷ e.diagnostic_ref ∷ []

unfoldable pub check_freshness : ResourceHealthEvidence → Check
unfolding require_given
check_freshness e =
    if e.status == healthy
    then (do require_given e.expires_at; require_given e.freshness_policy_ref)
    else pass

unfoldable pub check_diagnostic : Unicode → Option String → Check
check_diagnostic u none = pass
check_diagnostic u (some diagnostic) = reject_private_tokens u diagnostic

unfoldable pub validate_resource_health_evidence : Unicode → ResourceHealthEvidence → Check
validate_resource_health_evidence u e = do
  require_health_text e.evidence_id
  require_health_text e.resource_id
  require (e.resource_type == "account") health_contract
  require (has e.status evidence_statuses) health_contract
  observed ← parse_health_time e.observed_at
  check_expiry e.observed_at e.expires_at
  check_freshness e
  require (has e.provenance provenance_values) health_contract
  require (e.redaction_status == "redacted") health_contract
  require_health_text e.reason
  each optional_given (context_attributes e)
  reject_private_tokens u e.reason
  check_diagnostic u e.diagnostic_ref

-- The loop over the optional attributes: those that are `None` get no key.
unfoldable pub present_fields : List (String × Option String) → Fields
present_fields [] = no_fields
present_fields ((k, none) ∷ attributes) = present_fields attributes
present_fields ((k, some s) ∷ attributes) = field k (text s) (present_fields attributes)

abbrev pub optional_attributes : ResourceHealthEvidence → List (String × Option String)
optional_attributes e =
    ("expires_at", e.expires_at)
    ∷ ("freshness_policy_ref", e.freshness_policy_ref)
    ∷ ("task_id", e.task_id)
    ∷ ("lease_id", e.lease_id)
    ∷ ("bundle_id", e.bundle_id)
    ∷ ("adapter_key", e.adapter_key)
    ∷ ("capability", e.capability)
    ∷ ("operation", e.operation)
    ∷ ("diagnostic_ref", e.diagnostic_ref)
    ∷ []

abbrev pub evidence_object : ResourceHealthEvidence → Fields
evidence_object e = field "evidence_id" (text e.evidence_id) (
    field "resource_id" (text e.resource_id) (
      field "resource_type" (text e.resource_type) (
        field "status" (text e.status) (
          field "observed_at" (text e.observed_at) (
            field "provenance" (text e.provenance) (
              field "reason" (text e.reason) (
                field "redaction_status" (text e.redaction_status)
                  (present_fields (optional_attributes e)))))))))

unfoldable pub resource_health_evidence_to_dict : Unicode → ResourceHealthEvidence → Result Value
resource_health_evidence_to_dict u e = do
  validate_resource_health_evidence u e
  ok (obj (evidence_object e))

-- `unknown_fields` is empty
unfoldable pub all_known : Fields → Bool
all_known no_fields = true
all_known (field k v fs) = has k evidence_fields && all_known fs

unfoldable pub evidence_from_fields : Fields → Result ResourceHealthEvidence
evidence_from_fields fs = do
  evidence_id ← text_value (item "evidence_id" fs)
  resource_id ← text_value (item "resource_id" fs)
  resource_type ← text_value (item "resource_type" fs)
  status ← text_value (item "status" fs)
  observed_at ← text_value (item "observed_at" fs)
  provenance ← text_value (item "provenance" fs)
  reason ← text_value (item "reason" fs)
  redaction_status ← text_value (item "redaction_status" fs)
  expires_at ← optional_value (item "expires_at" fs)
  freshness_policy_ref ← optional_value (item "freshness_policy_ref" fs)
  task_id ← optional_value (item "task_id" fs)
  lease_id ← optional_value (item "lease_id" fs)
  bundle_id ← optional_value (item "bundle_id" fs)
  adapter_key ← optional_value (item "adapter_key" fs)
  capability ← optional_value (item "capability" fs)
  operation ← optional_value (item "operation" fs)
  diagnostic_ref ← optional_value (item "diagnostic_ref" fs)
  ok (record {
    evidence_id = evidence_id;
    resource_id = resource_id;
    resource_type = resource_type;
    status = status;
    observed_at = observed_at;
    provenance = provenance;
    reason = reason;
    redaction_status = redaction_status;
    expires_at = expires_at;
    freshness_policy_ref = freshness_policy_ref;
    task_id = task_id;
    lease_id = lease_id;
    bundle_id = bundle_id;
    adapter_key = adapter_key;
    capability = capability;
    operation = operation;
    diagnostic_ref = diagnostic_ref;
  })

unfoldable pub resource_health_evidence_from_dict : Unicode → Value → Result ResourceHealthEvidence
unfolding all_known
resource_health_evidence_from_dict u (obj fs) = do
  require (all_known fs) health_contract
  e ← evidence_from_fields fs
  validate_resource_health_evidence u e
  ok e
resource_health_evidence_from_dict u _ = err health_contract

unfoldable pub coerce_evidence : Unicode → Supplied → Result ResourceHealthEvidence
coerce_evidence u (Supplied.evidence e) = do validate_resource_health_evidence u e; ok e
coerce_evidence u (Supplied.payload v) = resource_health_evidence_from_dict u v
