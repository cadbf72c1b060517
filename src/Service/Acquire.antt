-- ===== src/Service/Acquire.antt =====
-- `acquire` of syvert/resource_lifecycle.py.
pub mod Outcome
pub mod Unchanged
use syvert.Common.{
  ℕ, zero, suc, String, Bool, true, false, List, [], ◌∷◌, ◌++◌, map, Error, Result, ok, err,
  state_conflict, not_terminated, Check, require, ◌>>=◌, ◌>>◌, sort_by, if◌then◌else◌, Dict,
}
use syvert.Json.{Value}
use syvert.Trace.Types.{ResourceTraceEvent}
use syvert.Lifecycle.Types.{
  ResourceRecord, ResourceBundle, ResourceLease, AcquireRequest, ResourceLifecycleSnapshot,
}
use syvert.Lifecycle.Snapshot.{validate_snapshot, values}
use syvert.Lifecycle.Requests.{
  normalize_acquire_request, recover_failure_task_id, recover_acquire_failure_adapter_key,
  recover_acquire_failure_capability, require_task_context_task_id,
}
use syvert.Lifecycle.Failures.{
  Failure, is_lifecycle_error, is_retryable_revision_conflict, classify_acquire_contract_error,
  failure_envelope,
}
use syvert.Lifecycle.Selection.{
  id_le, select_available_resources, selected_resources_signature, same_signature,
}
use syvert.Lifecycle.Transitions.{ids_of, apply_acquire_transition}
use syvert.Lifecycle.Tracing.{
  build_resource_bundle, build_resource_lease, build_acquired_resource_trace_events,
}
use syvert.Service.World.{Env, World, load_from_store, write_snapshot_with_tracing}

pub data AcquireResult : Type 0 where
  acquired : ResourceBundle → AcquireResult
  failed : Failure → AcquireResult

-- What one round of the loop is about to write.
pub record AcquirePlan : Type 0 where
  pub signature : List (String × String)
  pub bundle : ResourceBundle
  pub lease : ResourceLease
  pub events : List ResourceTraceEvent
  pub snapshot : ResourceLifecycleSnapshot

-- The round of the loop up to its write; the last three are what the clock and `uuid4` answer.
unfoldable pub plan_acquire :
    AcquireRequest
    → ResourceLifecycleSnapshot
    → (acquired_at bundle_hex lease_hex : String) → Result AcquirePlan
plan_acquire request s acquired_at bundle_hex lease_hex = do
  selected ← select_available_resources s request.requested_slots request.adapter_key
  signature ← selected_resources_signature request.requested_slots selected
  bundle ← build_resource_bundle request selected acquired_at bundle_hex lease_hex
  lease ← build_resource_lease bundle
  events ← build_acquired_resource_trace_events bundle
  updated ← apply_acquire_transition s.resources (ids_of (values selected))
  let snapshot : ResourceLifecycleSnapshot = record s {
    revision = suc s.revision;
    resources = sort_by id_le updated;
    leases = s.leases ++ lease ∷ [];
  }
  validate_snapshot snapshot
  ok (record {
    signature = signature;
    bundle = bundle;
    lease = lease;
    events = events;
    snapshot = snapshot;
  })

-- An error of the second selection means that the first one is out of date.
unfoldable pub stale_selection {ℓ} : {A : Type ℓ} → Result A → Result A
stale_selection (ok a) = ok a
stale_selection (err e) = if is_lifecycle_error e then err state_conflict else err e

-- After a conflict of revisions: the same resources must still be the ones to choose.
unfoldable pub reselect :
    AcquireRequest
    → List (String × String)
    → ResourceLifecycleSnapshot
    → Result ResourceLifecycleSnapshot
reselect request signature s = do
  selected ←
      stale_selection (select_available_resources s request.requested_slots request.adapter_key)
  refreshed ← selected_resources_signature request.requested_slots selected
  require (same_signature refreshed signature) state_conflict
  ok s

-- The `while True` loop, by the number of rounds that it may take.
unfoldable pub acquire_loop :
    Env → ℕ → AcquireRequest → ResourceLifecycleSnapshot → World → Result ResourceBundle × World
acquire_loop env zero request s w = (err not_terminated, w)
acquire_loop env (suc rounds) request s w =
    elim (plan_acquire request s (env.now w.step) (env.bundle_hex w.step) (env.lease_hex w.step)) [
      | err e ↦ (err e, w)
      | ok plan ↦
          (let (written, w') = write_snapshot_with_tracing env plan.snapshot plan.events w in
            elim written [
              | ok _ ↦ (ok plan.bundle, w')
              | err e ↦ elim (is_retryable_revision_conflict e) [
                | false ↦ (err e, w')
                | true ↦
                    (let (loaded, w'') = load_from_store env w' in
                      elim (do fresh ← loaded; reselect request plan.signature fresh) [
                        | err e' ↦ (err e', w'')
                        | ok fresh ↦ acquire_loop env rounds request fresh w''
                      ])
              ]
            ])
    ]

-- `except ResourceLifecycleContractError`: a failure envelope; other errors are raised on.
unfoldable pub finish_acquire :
    (task_id adapter_key capability : String) → Result ResourceBundle → Result AcquireResult
finish_acquire task_id adapter_key capability (ok bundle) = ok (acquired bundle)
finish_acquire task_id adapter_key capability (err e) =
    if is_lifecycle_error e
    then ok (
        failed
          (failure_envelope task_id adapter_key capability (classify_acquire_contract_error e)))
    else err e

-- `normalize_acquire_request`, and then the snapshot
unfoldable pub begin_acquire :
    Env → Value → World → Result (AcquireRequest × ResourceLifecycleSnapshot) × World
begin_acquire env request w = elim (normalize_acquire_request request) [
  | err e ↦ (err e, w)
  | ok normalized ↦
      (let (loaded, w') = load_from_store env w in ((do s ← loaded; ok (normalized, s)), w'))
]

unfoldable pub acquire : Env → ℕ → Value → String → World → Result AcquireResult × World
acquire env rounds request context w = elim (require_task_context_task_id context) [
  | err e ↦ (err e, w)
  | ok _ ↦
      (let (begun, w') = begin_acquire env request w in
        elim begun [
          | err e ↦ (
            finish_acquire (recover_failure_task_id request context)
                (recover_acquire_failure_adapter_key request)
                (recover_acquire_failure_capability request) (err e),
            w',
          )
          | ok (normalized, s) ↦
              (let (bundle, w'') = acquire_loop env rounds normalized s w' in
                (
                  finish_acquire normalized.task_id normalized.adapter_key normalized.capability
                      bundle,
                  w'',
                ))
        ])
]
