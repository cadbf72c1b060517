-- ===== src/Lifecycle/Tracing.antt =====
-- Bundles, leases and trace events that `acquire` and `release` of syvert/resource_lifecycle.py build.
use Prim.Native.String.{◌++◌ as text_append}
use syvert.Common.{
  String, none, some, List, [], ◌∷◌, ◌==◌, Dict, get, Result, ok, err, contract, traverse, ◌>>=◌,
  ◌>>◌, if◌then◌else◌,
}
use syvert.Trace.Types.{
  ResourceTraceEvent, acquired_type, released_type, invalidated_type, build_resource_trace_event_id,
}
use syvert.Lifecycle.Types.{
  ResourceRecord, ResourceBundle, ResourceLease, AcquireRequest, available, in_use, account_slot,
  proxy_slot, bundle_slot,
}
use syvert.Lifecycle.Records.{validate_resource_bundle, validate_resource_lease}

-- `bundle_hex` and `lease_hex` are what the two calls of `uuid4().hex` answer.
unfoldable pub build_resource_bundle :
    AcquireRequest
    → Dict ResourceRecord
    → (acquired_at bundle_hex lease_hex : String) → Result ResourceBundle
unfolding validate_resource_bundle
build_resource_bundle request selected acquired_at bundle_hex lease_hex = do
  let bundle : ResourceBundle = record {
    bundle_id = text_append "bundle-" bundle_hex;
    lease_id = text_append "lease-" lease_hex;
    task_id = request.task_id;
    adapter_key = request.adapter_key;
    capability = request.capability;
    requested_slots = request.requested_slots;
    acquired_at = acquired_at;
    account = get account_slot selected;
    proxy = get proxy_slot selected;
  }
  validate_resource_bundle bundle
  ok bundle

-- `getattr(bundle, slot).resource_id` of each slot that holds a resource
unfoldable pub bundle_resource_ids : ResourceBundle → List String → List String
unfolding bundle_slot
bundle_resource_ids b [] = []
bundle_resource_ids b (slot ∷ slots) =
    let rest = bundle_resource_ids b slots in
    elim (bundle_slot b slot) [ none ↦ rest | some r ↦ r.resource_id ∷ rest ]

unfoldable pub build_resource_lease : ResourceBundle → Result ResourceLease
unfolding bundle_resource_ids validate_resource_lease
build_resource_lease b = do
  let lease : ResourceLease = record {
    lease_id = b.lease_id;
    bundle_id = b.bundle_id;
    task_id = b.task_id;
    adapter_key = b.adapter_key;
    capability = b.capability;
    resource_ids = bundle_resource_ids b b.requested_slots;
    acquired_at = b.acquired_at;
    released_at = none;
    target_status_after_release = none;
    release_reason = none;
  }
  validate_resource_lease lease
  ok lease

unfoldable pub acquired_event : ResourceBundle → String → Result ResourceTraceEvent
unfolding bundle_slot build_resource_trace_event_id
acquired_event b slot = elim (bundle_slot b slot) [
  | none ↦ err contract
  | some r ↦ ok (record {
    event_id = build_resource_trace_event_id acquired_type b.lease_id r.resource_id;
    task_id = b.task_id;
    lease_id = b.lease_id;
    bundle_id = b.bundle_id;
    resource_id = r.resource_id;
    resource_type = r.resource_type;
    adapter_key = b.adapter_key;
    capability = b.capability;
    event_type = acquired_type;
    from_status = available;
    to_status = in_use;
    occurred_at = b.acquired_at;
    reason = "acquired_for_task";
  })
]

unfoldable pub build_acquired_resource_trace_events :
    ResourceBundle → Result (List ResourceTraceEvent)
unfolding acquired_event traverse
build_acquired_resource_trace_events b = traverse (acquired_event b) b.requested_slots

-- The closeout of one resource of a lease, settled at `at` with a target and a reason.
unfoldable pub release_event :
    ResourceLease
    → (at target reason : String) → Dict ResourceRecord
    → String
    → Result ResourceTraceEvent
unfolding build_resource_trace_event_id
release_event lease at target reason resources id = elim (get id resources) [
  | none ↦ err contract
  | some r ↦
      (let event_type = if target == available then released_type else invalidated_type in
        ok (record {
          event_id = build_resource_trace_event_id event_type lease.lease_id id;
          task_id = lease.task_id;
          lease_id = lease.lease_id;
          bundle_id = lease.bundle_id;
          resource_id = id;
          resource_type = r.resource_type;
          adapter_key = lease.adapter_key;
          capability = lease.capability;
          event_type = event_type;
          from_status = in_use;
          to_status = target;
          occurred_at = at;
          reason = reason;
        }))
]

-- The three release fields of the settled lease, or an error where one is missing.
unfoldable pub settled_fields : ResourceLease → Result (String × String × String)
settled_fields lease = elim lease.released_at [
  | none ↦ err contract
  | some at ↦ elim lease.target_status_after_release [
    | none ↦ err contract
    | some target ↦ elim lease.release_reason [
      | none ↦ err contract
      | some reason ↦ ok (at, target, reason)
    ]
  ]
]

unfoldable pub build_release_resource_trace_events :
    ResourceLease → ResourceLease → Dict ResourceRecord → Result (List ResourceTraceEvent)
unfolding settled_fields release_event traverse
build_release_resource_trace_events current settled resources = do
  (at, target, reason) ← settled_fields settled
  traverse (release_event current at target reason resources) current.resource_ids
