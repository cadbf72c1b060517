-- ===== src/Trace/Events.antt =====
-- One event of syvert/resource_trace.py: its validator and its JSON form.
use syvert.Common.{
  String, not, ◌&&◌, none, some, ◌==◌, is_empty, has, get, Result, ok, err, trace_contract, Check,
  require, ◌>>=◌, ◌>>◌,
}
use syvert.Json.{Value, Fields, text, obj, no_fields, field, item}
use syvert.Time.{parse_trace_time}
use syvert.Trace.Types.{
  ResourceTraceEvent, event_types, trace_resource_types, trace_statuses, allowed_transitions,
  build_resource_trace_event_id,
}

-- `require_non_empty_string` of a text
unfoldable pub require_text : String → Check
require_text s = require (not (is_empty s)) trace_contract

-- `require_non_empty_string` of a JSON value
unfoldable pub require_text_value : Value → Result String
require_text_value (text s) = do require (not (is_empty s)) trace_contract; ok s
require_text_value _ = err trace_contract

-- The look-up in the table of transitions cannot fail: the type was checked.
unfoldable pub check_transition : ResourceTraceEvent → Check
check_transition e = elim (get e.event_type allowed_transitions) [
  | none ↦ err trace_contract
  | some (from, to) ↦ require (e.from_status == from && e.to_status == to) trace_contract
]

unfoldable pub validate_resource_trace_event : ResourceTraceEvent → Check
unfolding require_text check_transition
validate_resource_trace_event e = do
  require_text e.event_id
  require_text e.task_id
  require_text e.lease_id
  require_text e.bundle_id
  require_text e.resource_id
  require_text e.adapter_key
  require_text e.capability
  require_text e.reason
  require (has e.resource_type trace_resource_types) trace_contract
  require (has e.event_type event_types) trace_contract
  require (has e.from_status trace_statuses) trace_contract
  require (has e.to_status trace_statuses) trace_contract
  check_transition e
  time ← parse_trace_time e.occurred_at
  require (e.event_id == build_resource_trace_event_id e.event_type e.lease_id e.resource_id)
      trace_contract

event_object : ResourceTraceEvent → Value
event_object e = obj (
    field "event_id" (text e.event_id) (
      field "task_id" (text e.task_id) (
        field "lease_id" (text e.lease_id) (
          field "bundle_id" (text e.bundle_id) (
            field "resource_id" (text e.resource_id) (
              field "resource_type" (text e.resource_type) (
                field "adapter_key" (text e.adapter_key) (
                  field "capability" (text e.capability) (
                    field "event_type" (text e.event_type) (
                      field "from_status" (text e.from_status) (
                        field "to_status" (text e.to_status) (
                          field "occurred_at" (text e.occurred_at)
                            (field "reason" (text e.reason) no_fields)))))))))))))

unfoldable pub resource_trace_event_to_dict : ResourceTraceEvent → Result Value
unfolding event_object
resource_trace_event_to_dict e = do validate_resource_trace_event e; ok (event_object e)

event_from_fields : Fields → Result ResourceTraceEvent
unfolding require_text_value item
event_from_fields fs = do
  event_id ← require_text_value (item "event_id" fs)
  task_id ← require_text_value (item "task_id" fs)
  lease_id ← require_text_value (item "lease_id" fs)
  bundle_id ← require_text_value (item "bundle_id" fs)
  resource_id ← require_text_value (item "resource_id" fs)
  resource_type ← require_text_value (item "resource_type" fs)
  adapter_key ← require_text_value (item "adapter_key" fs)
  capability ← require_text_value (item "capability" fs)
  event_type ← require_text_value (item "event_type" fs)
  from_status ← require_text_value (item "from_status" fs)
  to_status ← require_text_value (item "to_status" fs)
  occurred_at ← require_text_value (item "occurred_at" fs)
  reason ← require_text_value (item "reason" fs)
  ok (record {
    event_id = event_id;
    task_id = task_id;
    lease_id = lease_id;
    bundle_id = bundle_id;
    resource_id = resource_id;
    resource_type = resource_type;
    adapter_key = adapter_key;
    capability = capability;
    event_type = event_type;
    from_status = from_status;
    to_status = to_status;
    occurred_at = occurred_at;
    reason = reason;
  })

unfoldable pub resource_trace_event_from_dict : Value → Result ResourceTraceEvent
unfolding event_from_fields
resource_trace_event_from_dict (obj fs) = do
  e ← event_from_fields fs
  validate_resource_trace_event e
  ok e
resource_trace_event_from_dict _ = err trace_contract
