-- ===== src/Tests/Program.antt =====
-- The functions that a run goes through, by one name: `unfolding program` lets a test compute.
use syvert.Common.{keep, sort_by}
use syvert.Common.{get, put, has, count}
use syvert.Common.{each, traverse}
use syvert.Common.{codes, starts_with, contains_text}
use syvert.Health.Admission.{
  credential_material_from_account_resource, credential_material_public_projection, same_given,
  same_operation, validate_evidence_context, max_time, max_observed_at, latest_evidence, expiry_of,
  any_due, judge_latest, judge_account, after_account, project_accounts,
  decision_for_projected_health, check_credential, assess_accounts, assess_evidence, assess,
  handle_assessment, stamp_of, decide_resource_health_admission,
  resource_admission_decision_to_dict,
}
use syvert.Health.Evidence.{
  as_health, parse_health_time, require_health_text, require_given, text_value, optional_given,
  optional_value, check_expiry, check_freshness, check_diagnostic,
  validate_resource_health_evidence, present_fields, resource_health_evidence_to_dict, all_known,
  evidence_from_fields, resource_health_evidence_from_dict, coerce_evidence,
}
use syvert.Health.Findings.{
  or_default, invalidation_decision, invalidation_rejected_decision, invalid_contract_decision,
  invalid_contract_decision_from_context, find_active_lease, find_active_lease_for_resource,
  missing_active_context_binding, evidence_mismatches_lease_context, without_active_lease,
  with_active_lease, inspect,
}
use syvert.Health.Invalidation.{
  envelope, finish_split, split_settle_active_lease_for_account_invalidation, settle_finding,
  invalidate_bound, is_of_call, invalidate_evidence, unreadable_evidence,
  invalidate_active_lease_from_health_evidence,
}
use syvert.Health.Redaction.{is_private, reject_private_tokens}
use syvert.Health.Split.{scope_record, split_lease, split_snapshot, split_events}
use syvert.Json.{
  item, has_key, items, item_list, is_finite, normalize_json_value, normalize_items,
  normalize_fields, same_value, same_items, same_fields,
}
use syvert.Json.Normal.{is_json, all_json, fields_json}
use syvert.Lifecycle.Codec.{
  require_contract_text, require_non_negative_int, resource_record_to_dict,
  resource_record_from_dict, resource_lease_to_dict, resource_lease_from_dict,
  resource_bundle_to_dict, snapshot_to_dict, snapshot_from_dict, canonical_resource_record,
  coerce_resource_lease, canonical_snapshot,
}
use syvert.Lifecycle.Failures.{
  classify_acquire_contract_error, classify_release_contract_error, failure_envelope,
}
use syvert.Lifecycle.Records.{
  require_non_empty, validate_resource_record, unique_from, validate_unique_non_empty_strings,
  check_target, check_reason, validate_settlement, validate_resource_lease, slots_from,
  validate_requested_slots, validate_bundle_slot, validate_resource_bundle,
}
use syvert.Lifecycle.Requests.{
  text_or_raise, extract_string, non_empty_text, extract_optional_string, slots_of,
  extract_requested_slots, validate_acquire_request, non_empty_string, normalize_acquire_request,
  validate_release_request, normalize_release_request, recover_failure_task_id,
  recover_acquire_failure_adapter_key, recover_acquire_failure_capability,
  recover_release_failure_adapter_key, recover_release_failure_capability,
  require_task_context_task_id,
}
use syvert.Lifecycle.Selection.{
  active_resource_ids, resource_is_slot_compatible, is_candidate, candidates, take_candidate,
  check_type, select_slots, select_available_resources, slot_id, selected_resources_signature,
  same_signature,
}
use syvert.Lifecycle.Snapshot.{
  scan_resources, after_end, check_intervals, latest_agrees, stays_invalid, check_resource,
  check_active, values, validate_snapshot,
}
use syvert.Lifecycle.Snapshot.Invalidation.{was_invalidated}
use syvert.Lifecycle.Snapshot.LeaseScan.{
  claim, later_settled, later_invalid, settle, scan_release, scan_lease, scan_leases,
}
use syvert.Lifecycle.Tracing.{
  build_resource_bundle, bundle_resource_ids, build_resource_lease, acquired_event,
  build_acquired_resource_trace_events, release_event, settled_fields,
  build_release_resource_trace_events,
}
use syvert.Lifecycle.Transitions.{
  is_subset, move_record, in_use_ids, apply_acquire_transition, apply_release_transition,
  find_lease, require_lease, replace_lease, lease_resource_id, releasable_lease_signature,
  same_releasable,
}
use syvert.Lifecycle.Types.{collect_by_id, bundle_slot}
use syvert.Service.Acquire.{
  plan_acquire, stale_selection, reselect, acquire_loop, finish_acquire, begin_acquire, acquire,
}
use syvert.Service.Release.{
  is_text, is_same_settlement, ensure_settled_release_trace_truth, repeat_release, check_held,
  plan_release, recheck_release, after_failed_write, own_lease, release_loop, finish_release,
  first_look, first_lease, snapshot_or_load, begin_release, release,
}
use syvert.Service.World.{load_checked, load_from_store, coerce_error, write_snapshot_with_tracing}
use syvert.Store.LifecycleStore.{
  as_conflict, load_snapshot, check_revision, write_json_atomic, write_snapshot_locked,
  write_snapshot, prepare_commit, roll_back, write_after_trace, write_both, commit_with_trace,
}
use syvert.Store.Seeding.{seedable_resource_records, seed_resources}
use syvert.Store.TraceStore.{
  as_persistence, read_events, load_events, encode_events, write_events, append_events,
  task_usage_log, lease_timeline, bundle_timeline, resource_events,
}
use syvert.Time.{or_raise, parse_lifecycle_time, parse_trace_time}
use syvert.Trace.Events.{
  require_text, require_text_value, check_transition, validate_resource_trace_event,
  resource_trace_event_to_dict, resource_trace_event_from_dict,
}
use syvert.Trace.Merge.{events_by_id, events_to_append, merge_resource_trace_events}
use syvert.Trace.Stream.{
  stamp, sort_resource_trace_events, drop_repeats, canonicalize_resource_trace_events, run_events,
  validate_resource_trace_stream, build_task_resource_usage_log, resource_trace_events_for_resource,
}
use syvert.Trace.Stream.Bindings.{
  timeline, set_timeline, bind_once, bind_type, advance_timeline, bind_event, step_event,
}
use syvert.Trace.Timeline.{build_resource_timeline, build_resource_lease_timeline}
use syvert.Trace.Types.{build_resource_trace_event_id, same_event}

unfoldable pub program : Unit {0}
unfolding keep sort_by get put has count each traverse codes starts_with contains_text
    credential_material_from_account_resource credential_material_public_projection same_given
    same_operation validate_evidence_context max_time max_observed_at latest_evidence expiry_of
    any_due judge_latest judge_account after_account project_accounts decision_for_projected_health
    check_credential assess_accounts assess_evidence assess handle_assessment stamp_of
    decide_resource_health_admission resource_admission_decision_to_dict as_health parse_health_time
    require_health_text require_given text_value optional_given optional_value check_expiry
    check_freshness check_diagnostic validate_resource_health_evidence present_fields
    resource_health_evidence_to_dict all_known evidence_from_fields
    resource_health_evidence_from_dict coerce_evidence or_default invalidation_decision
    invalidation_rejected_decision invalid_contract_decision invalid_contract_decision_from_context
    find_active_lease find_active_lease_for_resource missing_active_context_binding
    evidence_mismatches_lease_context without_active_lease with_active_lease inspect envelope
    finish_split split_settle_active_lease_for_account_invalidation settle_finding invalidate_bound
    is_of_call invalidate_evidence unreadable_evidence invalidate_active_lease_from_health_evidence
    is_private reject_private_tokens scope_record split_lease split_snapshot split_events item
    has_key items item_list is_finite normalize_json_value normalize_items normalize_fields
    same_value same_items same_fields is_json all_json fields_json require_contract_text
    require_non_negative_int resource_record_to_dict resource_record_from_dict
    resource_lease_to_dict resource_lease_from_dict resource_bundle_to_dict snapshot_to_dict
    snapshot_from_dict canonical_resource_record coerce_resource_lease canonical_snapshot
    classify_acquire_contract_error classify_release_contract_error failure_envelope
    require_non_empty validate_resource_record unique_from validate_unique_non_empty_strings
    check_target check_reason validate_settlement validate_resource_lease slots_from
    validate_requested_slots validate_bundle_slot validate_resource_bundle text_or_raise
    extract_string non_empty_text extract_optional_string slots_of extract_requested_slots
    validate_acquire_request non_empty_string normalize_acquire_request validate_release_request
    normalize_release_request recover_failure_task_id recover_acquire_failure_adapter_key
    recover_acquire_failure_capability recover_release_failure_adapter_key
    recover_release_failure_capability require_task_context_task_id active_resource_ids
    resource_is_slot_compatible is_candidate candidates take_candidate check_type select_slots
    select_available_resources slot_id selected_resources_signature same_signature scan_resources
    after_end check_intervals latest_agrees stays_invalid check_resource check_active values
    validate_snapshot was_invalidated claim later_settled later_invalid settle scan_release
    scan_lease scan_leases build_resource_bundle bundle_resource_ids build_resource_lease
    acquired_event build_acquired_resource_trace_events release_event settled_fields
    build_release_resource_trace_events is_subset move_record in_use_ids apply_acquire_transition
    apply_release_transition find_lease require_lease replace_lease lease_resource_id
    releasable_lease_signature same_releasable collect_by_id bundle_slot plan_acquire
    stale_selection reselect acquire_loop finish_acquire begin_acquire acquire is_text
    is_same_settlement ensure_settled_release_trace_truth repeat_release check_held plan_release
    recheck_release after_failed_write own_lease release_loop finish_release first_look first_lease
    snapshot_or_load begin_release release load_checked load_from_store coerce_error
    write_snapshot_with_tracing as_conflict load_snapshot check_revision write_json_atomic
    write_snapshot_locked write_snapshot prepare_commit roll_back write_after_trace write_both
    commit_with_trace seedable_resource_records seed_resources as_persistence read_events
    load_events encode_events write_events append_events task_usage_log lease_timeline
    bundle_timeline resource_events or_raise parse_lifecycle_time parse_trace_time require_text
    require_text_value check_transition validate_resource_trace_event resource_trace_event_to_dict
    resource_trace_event_from_dict events_by_id events_to_append merge_resource_trace_events stamp
    sort_resource_trace_events drop_repeats canonicalize_resource_trace_events run_events
    validate_resource_trace_stream build_task_resource_usage_log resource_trace_events_for_resource
    timeline set_timeline bind_once bind_type advance_timeline bind_event step_event
    build_resource_timeline build_resource_lease_timeline build_resource_trace_event_id same_event
program = tt
