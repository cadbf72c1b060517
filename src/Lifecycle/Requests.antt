-- ===== src/Lifecycle/Requests.antt =====
-- What `acquire` and `release` make of a caller's request in syvert/resource_lifecycle.py. A request
-- is a value with keys: a mapping, or an object by its attributes.
use syvert.Common.{
  String, not, Option, none, some, List, is_empty, has, Error, Result, ok, err, invalid_request,
  invalid_release, value_error, Check, require, traverse, ◌>>=◌, ◌>>◌, if◌then◌else◌,
}
use syvert.Json.{Value, null, text, arr, tuple, obj, item, item_list}
use syvert.Lifecycle.Types.{AcquireRequest, ReleaseRequest, ResourceLease, release_target_statuses}
use syvert.Lifecycle.Records.{require_non_empty, validate_requested_slots}

pub extract_value : Value → String → Value
unfolding item
extract_value (obj fs) k = item k fs
extract_value _ k = null

-- `extract_string` and `extract_release_string`, which differ in what they raise
unfoldable pub text_or_raise : Error → Value → Result String
text_or_raise e (text s) = ok s
text_or_raise e _ = err e

unfoldable pub extract_string : Error → Value → String → Result String
unfolding extract_value text_or_raise
extract_string e request k = text_or_raise e (extract_value request k)

-- `extract_optional_string`: a text that is not empty
unfoldable pub non_empty_text : Value → Option String
non_empty_text (text s) = if is_empty s then none else some s
non_empty_text _ = none

unfoldable pub extract_optional_string : Value → String → Option String
unfolding extract_value non_empty_text
extract_optional_string request k = non_empty_text (extract_value request k)

-- A slot that is no text is refused by `validate_requested_slots`, with the same error.
unfoldable pub slots_of : Value → Result (List String)
unfolding item_list traverse text_or_raise
slots_of (arr vs) = traverse (text_or_raise invalid_request) (item_list vs)
slots_of (tuple vs) = traverse (text_or_raise invalid_request) (item_list vs)
slots_of _ = err invalid_request

unfoldable pub extract_requested_slots : Value → Result (List String)
unfolding extract_value slots_of
extract_requested_slots request = slots_of (extract_value request "requested_slots")

unfoldable pub validate_acquire_request : AcquireRequest → Check
unfolding require_non_empty validate_requested_slots
validate_acquire_request r = do
  require_non_empty invalid_request r.task_id
  require_non_empty invalid_request r.adapter_key
  require_non_empty invalid_request r.capability
  validate_requested_slots r.requested_slots

unfoldable pub non_empty_string : Error → Value → String → Result String
unfolding extract_string require_non_empty
non_empty_string e request k = do s ← extract_string e request k; require_non_empty e s; ok s

unfoldable pub normalize_acquire_request : Value → Result AcquireRequest
unfolding non_empty_string extract_requested_slots validate_acquire_request
normalize_acquire_request request = do
  task_id ← non_empty_string invalid_request request "task_id"
  adapter_key ← non_empty_string invalid_request request "adapter_key"
  capability ← non_empty_string invalid_request request "capability"
  slots ← extract_requested_slots request
  let normalized : AcquireRequest = record {
    task_id = task_id;
    adapter_key = adapter_key;
    capability = capability;
    requested_slots = slots;
  }
  validate_acquire_request normalized
  ok normalized

unfoldable pub validate_release_request : ReleaseRequest → Check
unfolding require_non_empty
validate_release_request r = do
  require_non_empty invalid_release r.lease_id
  require_non_empty invalid_release r.task_id
  require (has r.target_status_after_release release_target_statuses) invalid_release
  require_non_empty invalid_release r.reason

unfoldable pub normalize_release_request : Value → Result ReleaseRequest
unfolding non_empty_string validate_release_request
normalize_release_request request = do
  lease_id ← non_empty_string invalid_release request "lease_id"
  task_id ← non_empty_string invalid_release request "task_id"
  target ← non_empty_string invalid_release request "target_status_after_release"
  reason ← non_empty_string invalid_release request "reason"
  let normalized : ReleaseRequest = record {
    lease_id = lease_id;
    task_id = task_id;
    target_status_after_release = target;
    reason = reason;
  }
  validate_release_request normalized
  ok normalized

abbrev or_blank : Option String → String
or_blank none = ""
or_blank (some s) = s

-- The context's task id is known to be a text that is not empty.
unfoldable pub recover_failure_task_id : Value → String → String
unfolding extract_optional_string
recover_failure_task_id request context = elim (extract_optional_string request "task_id") [
  | none ↦ context
  | some s ↦ s
]

unfoldable pub recover_acquire_failure_adapter_key : Value → String
unfolding extract_optional_string
recover_acquire_failure_adapter_key request =
    or_blank (extract_optional_string request "adapter_key")

unfoldable pub recover_acquire_failure_capability : Value → String
unfolding extract_optional_string
recover_acquire_failure_capability request = or_blank (extract_optional_string request "capability")

unfoldable pub recover_release_failure_adapter_key : Option ResourceLease → String
recover_release_failure_adapter_key none = ""
recover_release_failure_adapter_key (some lease) = lease.adapter_key

unfoldable pub recover_release_failure_capability : Option ResourceLease → String
recover_release_failure_capability none = ""
recover_release_failure_capability (some lease) = lease.capability

unfoldable pub require_task_context_task_id : String → Check
require_task_context_task_id s = require (not (is_empty s)) value_error
