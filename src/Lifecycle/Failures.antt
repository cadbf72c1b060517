-- ===== src/Lifecycle/Failures.antt =====
-- Failure envelopes, and how `acquire` and `release` of syvert/resource_lifecycle.py classify what was
-- raised. A message's prefix is the constructor of the error.
use syvert.Common.{String, Bool, true, false, Error}

-- `failure_envelope` of syvert/runtime.py, without its message and details
pub record Failure : Type 0 where
  pub task_id : String
  pub adapter_key : String
  pub capability : String
  pub category : String
  pub code : String

pub record ErrorInfo : Type 0 where
  pub category : String
  pub code : String

abbrev invalid_input_error : String → ErrorInfo
invalid_input_error code = record { category = "invalid_input"; code = code }

abbrev pub runtime_contract_error : String → ErrorInfo
runtime_contract_error code = record { category = "runtime_contract"; code = code }

-- what `except ResourceLifecycleContractError` catches
abbrev pub is_lifecycle_error : Error → Bool
is_lifecycle_error Error.health_contract = false
is_lifecycle_error Error.credential_contract = false
is_lifecycle_error Error.trace_contract = false
is_lifecycle_error Error.trace_persistence = false
is_lifecycle_error Error.value_error = false
is_lifecycle_error Error.key_error = false
is_lifecycle_error Error.not_terminated = false
is_lifecycle_error _ = true

-- `is_retryable_revision_conflict`
abbrev pub is_retryable_revision_conflict : Error → Bool
is_retryable_revision_conflict Error.revision_conflict = true
is_retryable_revision_conflict _ = false

unfoldable pub classify_acquire_contract_error : Error → ErrorInfo
classify_acquire_contract_error Error.invalid_request =
    invalid_input_error "invalid_resource_request"
classify_acquire_contract_error Error.unavailable = runtime_contract_error "resource_unavailable"
classify_acquire_contract_error _ = runtime_contract_error "resource_state_conflict"

unfoldable pub classify_release_contract_error : Error → ErrorInfo
classify_release_contract_error Error.invalid_release =
    invalid_input_error "invalid_resource_release"
classify_release_contract_error Error.lease_mismatch =
    runtime_contract_error "resource_lease_mismatch"
classify_release_contract_error Error.release_conflict =
    runtime_contract_error "resource_release_conflict"
classify_release_contract_error _ = runtime_contract_error "resource_state_conflict"

unfoldable pub failure_envelope : String → String → String → ErrorInfo → Failure
failure_envelope task_id adapter_key capability e = record {
  task_id = task_id;
  adapter_key = adapter_key;
  capability = capability;
  category = e.category;
  code = e.code;
}
