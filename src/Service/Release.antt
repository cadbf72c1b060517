-- ===== src/Service/Release.antt =====
-- `release` of syvert/resource_lifecycle.py.
pub mod Settled
pub mod Outcome
pub mod Quiet
pub mod Stored
use syvert.Common.{
  ℕ, zero, suc, String, Bool, true, false, ◌&&◌, Option, none, some, List, [], ◌∷◌, map, ◌==◌,
  is_some, Dict, get, put, Error, Result, ok, err, state_conflict, lease_mismatch, release_conflict,
  not_terminated, Check, pass, require, forbid, each, ◌>>=◌, ◌>>◌, ◌⊎◌, inl, inr, sort_by,
  if◌then◌else◌,
}
use syvert.Json.{Value}
use syvert.Trace.Types.{ResourceTraceEvent, same_event}
use syvert.Trace.Merge.{events_by_id}
use syvert.Lifecycle.Types.{
  ResourceRecord, ResourceLease, ReleaseRequest, ResourceLifecycleSnapshot, in_use, by_id,
  collect_by_id,
}
use syvert.Lifecycle.Records.{validate_resource_lease}
use syvert.Lifecycle.Snapshot.{validate_snapshot}
use syvert.Lifecycle.Requests.{
  normalize_release_request, extract_optional_string, recover_failure_task_id,
  recover_release_failure_adapter_key, recover_release_failure_capability,
  require_task_context_task_id,
}
use syvert.Lifecycle.Failures.{
  Failure, is_lifecycle_error, is_retryable_revision_conflict, classify_release_contract_error,
  failure_envelope,
}
use syvert.Lifecycle.Selection.{id_le}
use syvert.Lifecycle.Transitions.{
  apply_release_transition, find_lease, require_lease, replace_lease, releasable_lease_signature,
  same_releasable,
}
use syvert.Lifecycle.Tracing.{build_release_resource_trace_events}
use syvert.Store.Disk.{Disk}
use syvert.Store.TraceStore.{load_events}
use syvert.Service.World.{Env, World, met, load_from_store, write_snapshot_with_tracing}

pub data ReleaseResult : Type 0 where
  released : ResourceLease → ReleaseResult
  failed : Failure → ReleaseResult

unfoldable pub is_text : Option String → String → Bool
is_text none s = false
is_text (some t) s = t == s

-- the lease was settled with this target and for this reason
unfoldable pub is_same_settlement : ReleaseRequest → ResourceLease → Bool
unfolding is_text
is_same_settlement request lease =
    is_text lease.target_status_after_release request.target_status_after_release
    && is_text lease.release_reason request.reason

has_event : Dict ResourceTraceEvent → ResourceTraceEvent → Bool
has_event persisted e = elim (get e.event_id persisted) [
  | none ↦ false
  | some old ↦ same_event old e
]

-- `ensure_settled_release_trace_truth`, on the disk that it meets
unfoldable pub ensure_settled_release_trace_truth :
    ResourceLifecycleSnapshot → ResourceLease → Disk → Check
unfolding has_event
ensure_settled_release_trace_truth s lease d = do
  expected ← build_release_resource_trace_events lease lease (by_id s.resources)
  persisted ← load_events d.trace_file
  each (λ e. require (has_event (events_by_id [] persisted) e) state_conflict) expected

-- A lease that is settled already: the request must repeat its settlement, and the trace must show it.
unfoldable pub repeat_release :
    Env
    → ReleaseRequest
    → ResourceLifecycleSnapshot
    → ResourceLease
    → World
    → Result ResourceLease × World
repeat_release env request s lease w = elim (is_same_settlement request lease) [
  | false ↦ (err release_conflict, w)
  | true ↦ (
    (do ensure_settled_release_trace_truth s lease (met env w); ok lease),
    record { step = suc w.step; disk = met env w },
  )
]

pub record ReleasePlan : Type 0 where
  pub signature : String × List String
  pub lease : ResourceLease
  pub events : List ResourceTraceEvent
  pub snapshot : ResourceLifecycleSnapshot

unfoldable pub check_held : Dict ResourceRecord → String → Check
check_held resources id = elim (get id resources) [
  | none ↦ err state_conflict
  | some r ↦ require (r.status == in_use) state_conflict
]

abbrev pub settled_lease : ReleaseRequest → String → ResourceLease → ResourceLease
settled_lease request released_at lease = record lease {
  released_at = some released_at;
  target_status_after_release = some request.target_status_after_release;
  release_reason = some request.reason;
}

-- The round of the loop up to its write, for a lease that is active.
unfoldable pub plan_release :
    ReleaseRequest → ResourceLifecycleSnapshot → ResourceLease → String → Result ReleasePlan
unfolding check_held
plan_release request s lease released_at = do
  let resources = by_id s.resources
  each (check_held resources) lease.resource_ids
  signature ← releasable_lease_signature lease resources
  let settled = settled_lease request released_at lease
  events ← build_release_resource_trace_events lease settled resources
  validate_resource_lease settled
  updated ←
      apply_release_transition s.resources lease.resource_ids request.target_status_after_release
  let snapshot : ResourceLifecycleSnapshot = record s {
    revision = suc s.revision;
    resources = sort_by id_le updated;
    leases = replace_lease lease.lease_id settled s.leases;
  }
  validate_snapshot snapshot
  ok (record { signature = signature; lease = settled; events = events; snapshot = snapshot })

-- After a write that failed with `e`: what is on disk now decides.
unfoldable pub recheck_release :
    Error → (String × List String) → ResourceLifecycleSnapshot → ResourceLease → Check
recheck_release e signature s lease =
    if is_retryable_revision_conflict e
    then (do
      refreshed ← releasable_lease_signature lease (by_id s.resources)
      require (same_releasable refreshed signature) state_conflict)
    else err e

find_fresh :
    ReleaseRequest
    → Result ResourceLifecycleSnapshot
    → Result (ResourceLifecycleSnapshot × ResourceLease)
find_fresh request loaded = do s ← loaded; lease ← require_lease s request.lease_id; ok (s, lease)

-- The handler of a write that failed: done, or another round from the snapshot.
unfoldable pub after_failed_write :
    Env
    → Error
    → ReleaseRequest
    → String × List String
    → Result ResourceLifecycleSnapshot
    → World
    → Result (ResourceLease ⊎ ResourceLifecycleSnapshot) × World
unfolding find_fresh
after_failed_write env e request signature loaded w = elim (find_fresh request loaded) [
  | err e' ↦ (err e', w)
  | ok (s, lease) ↦ elim (is_some lease.released_at) [
    | true ↦
        (let (repeated, w') = repeat_release env request s lease w in
          ((do l ← repeated; ok (inl l)), w'))
    | false ↦ ((do recheck_release e signature s lease; ok (inr s)), w)
  ]
]

-- The lease of this round, which must be the task's own.
unfoldable pub own_lease : ReleaseRequest → ResourceLifecycleSnapshot → Result ResourceLease
own_lease request s = do
  lease ← require_lease s request.lease_id
  require (lease.task_id == request.task_id) lease_mismatch
  ok lease

-- The `while True` loop, by the number of rounds that it may take.
unfoldable pub release_loop :
    Env → ℕ → ReleaseRequest → ResourceLifecycleSnapshot → World → Result ResourceLease × World
release_loop env zero request s w = (err not_terminated, w)
release_loop env (suc rounds) request s w = elim (own_lease request s) [
  | err e ↦ (err e, w)
  | ok lease ↦ elim (is_some lease.released_at) [
    | true ↦ repeat_release env request s lease w
    | false ↦ elim (plan_release request s lease (env.now w.step)) [
      | err e ↦ (err e, w)
      | ok plan ↦
          (let (written, w') = write_snapshot_with_tracing env plan.snapshot plan.events w in
            elim written [
              | ok _ ↦ (ok plan.lease, w')
              | err e ↦
                  (let (loaded, w'') = load_from_store env w' in
                    let (next, w''') = after_failed_write env e request plan.signature loaded w'' in
                    elim next [
                      | err e' ↦ (err e', w''')
                      | ok (inl done) ↦ (ok done, w''')
                      | ok (inr fresh) ↦ release_loop env rounds request fresh w'''
                    ])
            ])
    ]
  ]
]

unfoldable pub finish_release :
    (task_id adapter_key capability : String) → Result ResourceLease → Result ReleaseResult
finish_release task_id adapter_key capability (ok lease) = ok (released lease)
finish_release task_id adapter_key capability (err e) =
    if is_lifecycle_error e
    then ok (
        failed
          (failure_envelope task_id adapter_key capability (classify_release_contract_error e)))
    else err e

-- The first look at the store, for the envelope: an error of it is forgotten.
unfoldable pub first_look : Result ResourceLifecycleSnapshot → Option ResourceLifecycleSnapshot
first_look (ok s) = some s
first_look (err e) = none

unfoldable pub first_lease : Value → Option ResourceLifecycleSnapshot → Option ResourceLease
first_lease request none = none
first_lease request (some s) = elim (extract_optional_string request "lease_id") [
  | none ↦ none
  | some lease_id ↦ find_lease s.leases lease_id
]

-- The snapshot of the first look, or a second one if there is none.
unfoldable pub snapshot_or_load :
    Env → Option ResourceLifecycleSnapshot → World → Result ResourceLifecycleSnapshot × World
snapshot_or_load env (some s) w = (ok s, w)
snapshot_or_load env none w = load_from_store env w

unfoldable pub begin_release :
    Env
    → Value
    → Option ResourceLifecycleSnapshot
    → World
    → Result (ReleaseRequest × ResourceLifecycleSnapshot × ResourceLease) × World
begin_release env request seen w = elim (normalize_release_request request) [
  | err e ↦ (err e, w)
  | ok normalized ↦
      (let (loaded, w') = snapshot_or_load env seen w in
        (
          (do s ← loaded; lease ← require_lease s normalized.lease_id; ok (normalized, s, lease)),
          w',
        ))
]

unfoldable pub release : Env → ℕ → Value → String → World → Result ReleaseResult × World
release env rounds request context w = elim (require_task_context_task_id context) [
  | err e ↦ (err e, w)
  | ok _ ↦
      (let (looked, w') = load_from_store env w in
        let seen = first_look looked in
        let lease = first_lease request seen in
        let (begun, w'') = begin_release env request seen w' in
        elim begun [
          | err e ↦ (
            finish_release (recover_failure_task_id request context)
                (recover_release_failure_adapter_key lease)
                (recover_release_failure_capability lease) (err e),
            w'',
          )
          | ok (normalized, s, bound) ↦
              (let (result, w''') = release_loop env rounds normalized s w'' in
                (finish_release normalized.task_id bound.adapter_key bound.capability result, w'''))
        ])
]
