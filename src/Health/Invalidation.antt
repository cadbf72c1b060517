-- ===== src/Health/Invalidation.antt =====
-- `invalidate_active_lease_from_health_evidence` of syvert/resource_health.py.
pub mod Refusals
pub mod Scoped
use Prim.Native.String.{◌++◌ as text_append}
use syvert.Common.{
  ℕ, suc, String, Bool, true, false, not, ◌&&◌, ◌||◌, Option, none, some, List, [], ◌∷◌, map, ◌++◌,
  ◌==◌, ltb, is_empty, is_some, has, get, Dict, Error, Result, ok, err, health_contract, ◌>>=◌,
  ◌>>◌, sort_by, if◌then◌else◌,
}
use syvert.Json.{Value, Fields, text, obj, no_fields, field}
use syvert.Trace.Types.{ResourceTraceEvent}
use syvert.Lifecycle.Types.{
  ResourceRecord, ResourceBundle, ResourceLease, ResourceLifecycleSnapshot, available, in_use,
  invalid, by_id,
}
use syvert.Lifecycle.Snapshot.{validate_snapshot}
use syvert.Lifecycle.Failures.{
  Failure, is_lifecycle_error, runtime_contract_error, failure_envelope,
}
use syvert.Lifecycle.Selection.{id_le}
use syvert.Lifecycle.Transitions.{find_lease}
use syvert.Lifecycle.Tracing.{
  build_acquired_resource_trace_events, build_release_resource_trace_events,
}
use syvert.Service.World.{Env, World, load_from_store, write_snapshot_with_tracing}
use syvert.Service.Release.{ReleaseResult, release}
use syvert.Health.Types.{
  ResourceHealthEvidence, Supplied, ResourceAdmissionDecision, session_invalid, unknown, rejected,
  invalid_contract, credential_session_invalid, health_evidence_contract_invalid,
  split_release_reason,
}
use syvert.Health.Redaction.{Unicode}
use syvert.Health.Evidence.Faults.{is_health_error}
use syvert.Health.Evidence.{coerce_evidence}
use syvert.Health.Admission.{same_given, same_operation}
use syvert.Health.Findings.{
  or_default, invalidation_decision, invalidation_rejected_decision, invalid_contract_decision,
  invalid_contract_decision_from_context, find_active_lease, find_active_lease_for_resource,
  missing_active_context_binding, evidence_mismatches_lease_context, Finding, without_active_lease,
  with_active_lease, inspect,
}
use syvert.Health.Split.{
  released_original_lease, invalidation_bundle, invalidation_lease, scope_record, split_lease,
  split_snapshot, split_events,
}

pub data InvalidationResult : Type 0 where
  settled : ResourceLease → InvalidationResult
  failed : Failure → InvalidationResult
  decided : ResourceAdmissionDecision → InvalidationResult

-- An error of the lifecycle comes out as a failure envelope.
unfoldable pub envelope :
    (context adapter_key capability : String) → Error → Result InvalidationResult
envelope context adapter_key capability e =
    if is_lifecycle_error e
    then ok (
        failed (
          failure_envelope context adapter_key capability
            (runtime_contract_error "resource_state_conflict")))
    else err e

unfoldable pub finish_split :
    String
    → ResourceLease
    → ResourceLease
    → Result ResourceLifecycleSnapshot
    → Result InvalidationResult
unfolding envelope
finish_split context lease scoped (ok _) = ok (settled scoped)
finish_split context lease scoped (err e) = envelope context lease.adapter_key lease.capability e

unfoldable pub split_settle_active_lease_for_account_invalidation :
    Env
    → ResourceLifecycleSnapshot
    → ResourceLease
    → ResourceRecord
    → (context : String) → World
    → Result InvalidationResult × World
unfolding finish_split
split_settle_active_lease_for_account_invalidation env s lease account context w =
    let released_at = env.now w.step in
    let updated = split_snapshot s lease account.resource_id released_at in
    elim (do validate_snapshot updated; split_events s lease account released_at) [
      | err e ↦ (envelope context lease.adapter_key lease.capability e, w)
      | ok events ↦
          (let (written, w') = write_snapshot_with_tracing env updated events w in
            (
              finish_split context lease (invalidation_lease lease account.resource_id released_at)
                  written,
              w',
            ))
    ]

-- The `ReleaseRequest` of a lease with one resource
abbrev pub release_request : ResourceLease → Value
release_request lease = obj (
    field "lease_id" (text lease.lease_id) (
      field "task_id" (text lease.task_id) (
        field "target_status_after_release" (text invalid)
          (field "reason" (text credential_session_invalid) no_fields))))

of_release : Result ReleaseResult → Result InvalidationResult
of_release (ok (ReleaseResult.released lease)) = ok (settled lease)
of_release (ok (ReleaseResult.failed f)) = ok (failed f)
of_release (err e) = err e

pub has_many : List String → Bool
has_many (a ∷ b ∷ rest) = true
has_many _ = false

-- The end of the function, on what the snapshot said.
unfoldable pub settle_finding :
    Env
    → ℕ
    → ResourceHealthEvidence
    → (context : String) → ResourceLifecycleSnapshot
    → Finding
    → World
    → Result InvalidationResult × World
unfolding has_many of_release
settle_finding env rounds e context s Finding.contradicted w =
    (ok (decided (invalid_contract_decision e context (env.now w.step))), w)
settle_finding env rounds e context s Finding.refused w =
    (ok (decided (invalidation_rejected_decision e context (env.now w.step))), w)
settle_finding env rounds e context s (Finding.bound lease account) w =
    elim (has_many lease.resource_ids) [
      | true ↦ split_settle_active_lease_for_account_invalidation env s lease account context w
      | false ↦
          (let (result, w') = release env rounds (release_request lease) context w in
            (of_release result, w'))
    ]

-- Evidence that names its whole context.
unfoldable pub invalidate_bound :
    Env
    → ℕ
    → ResourceHealthEvidence
    → (context lease_id : String) → World
    → Result InvalidationResult × World
unfolding or_default
invalidate_bound env rounds e context lease_id w =
    let (loaded, w') = load_from_store env w in
    elim loaded [
      | err x ↦ (envelope context (or_default e.adapter_key "") (or_default e.capability "") x, w')
      | ok s ↦ settle_finding env rounds e context s (inspect e context lease_id s) w'
    ]

-- The checks of the evidence against the call, before the store is read.
unfoldable pub is_of_call : ResourceHealthEvidence → String → Option String → Bool
unfolding same_given same_operation
is_of_call e context operation =
    not (missing_active_context_binding e)
    && same_given e.task_id context
    && same_operation e.operation operation

-- `invalidate_active_lease_from_health_evidence` of evidence that was read
unfoldable pub invalidate_evidence :
    Env
    → ℕ
    → ResourceHealthEvidence
    → (context : String) → Option String
    → World
    → Result InvalidationResult × World
invalidate_evidence env rounds e context operation w = elim (e.status == session_invalid) [
  | false ↦ (err health_contract, w)
  | true ↦ elim e.lease_id [
    | none ↦ (ok (decided (invalid_contract_decision e context (env.now w.step))), w)
    | some lease_id ↦ elim (is_of_call e context operation) [
      | false ↦ (ok (decided (invalid_contract_decision e context (env.now w.step))), w)
      | true ↦ invalidate_bound env rounds e context lease_id w
    ]
  ]
]

unfoldable pub unreadable_evidence :
    String → Option String → String → Error → Result InvalidationResult
unreadable_evidence context operation now e =
    if is_health_error e
    then ok (decided (invalid_contract_decision_from_context context operation now))
    else err e

unfoldable pub invalidate_active_lease_from_health_evidence :
    Unicode
    → Env
    → ℕ
    → Supplied
    → (context : String) → Option String
    → World
    → Result InvalidationResult × World
invalidate_active_lease_from_health_evidence u env rounds supplied context operation w =
    elim (coerce_evidence u supplied) [
      | err e ↦ (unreadable_evidence context operation (env.now w.step) e, w)
      | ok e ↦ invalidate_evidence env rounds e context operation w
    ]
