-- ===== src/Health/Split.antt =====
-- The snapshot and the events of `_split_settle_active_lease_for_account_invalidation` of
-- syvert/resource_health.py.
use Prim.Native.String.{◌++◌ as text_append}
use syvert.Common.{
  suc, String, none, some, List, [], ◌∷◌, map, ◌++◌, ◌==◌, has, Result, ok, ◌>>=◌, sort_by,
  if◌then◌else◌,
}
use syvert.Trace.Types.{ResourceTraceEvent}
use syvert.Lifecycle.Types.{
  ResourceRecord, ResourceBundle, ResourceLease, ResourceLifecycleSnapshot, available, in_use,
  invalid, by_id,
}
use syvert.Lifecycle.Selection.{id_le}
use syvert.Lifecycle.Tracing.{
  build_acquired_resource_trace_events, build_release_resource_trace_events,
}
use syvert.Health.Types.{credential_session_invalid, split_release_reason}

-- `released_original_lease`
abbrev pub released_original_lease : ResourceLease → String → ResourceLease
released_original_lease lease released_at = record lease {
  released_at = some released_at;
  target_status_after_release = some available;
  release_reason = some split_release_reason;
}

abbrev invalidation_id : String → String
invalidation_id id = text_append id ":credential-session-invalidation"

abbrev pub invalidation_bundle : ResourceLease → ResourceRecord → String → ResourceBundle
invalidation_bundle lease account released_at = record {
  bundle_id = invalidation_id lease.bundle_id;
  lease_id = invalidation_id lease.lease_id;
  task_id = lease.task_id;
  adapter_key = lease.adapter_key;
  capability = lease.capability;
  requested_slots = "account" ∷ [];
  acquired_at = released_at;
  account = some (record account { status = in_use });
  proxy = none;
}

abbrev pub invalidation_lease : ResourceLease → String → String → ResourceLease
invalidation_lease lease account_resource_id released_at = record {
  lease_id = invalidation_id lease.lease_id;
  bundle_id = invalidation_id lease.bundle_id;
  task_id = lease.task_id;
  adapter_key = lease.adapter_key;
  capability = lease.capability;
  resource_ids = account_resource_id ∷ [];
  acquired_at = released_at;
  released_at = some released_at;
  target_status_after_release = some invalid;
  release_reason = some credential_session_invalid;
}

-- A round of the loop over the resources.
unfoldable pub scope_record :
    (account_resource_id : String) → List String → ResourceRecord → ResourceRecord
scope_record account_resource_id ids r =
    if r.resource_id == account_resource_id
    then record r { status = invalid }
    else if has r.resource_id ids
    then record r { status = available }
    else r

-- Each lease with the id is replaced by two.
unfoldable pub split_lease :
    String → ResourceLease → ResourceLease → List ResourceLease → List ResourceLease
split_lease lease_id original scoped [] = []
split_lease lease_id original scoped (lease ∷ leases) =
    let rest = split_lease lease_id original scoped leases in
    if lease.lease_id == lease_id then original ∷ scoped ∷ rest else lease ∷ rest

unfoldable pub split_snapshot :
    ResourceLifecycleSnapshot
    → ResourceLease
    → (account_resource_id released_at : String) → ResourceLifecycleSnapshot
unfolding scope_record split_lease
split_snapshot s lease account_resource_id released_at = record s {
  revision = suc s.revision;
  resources = sort_by id_le (map (scope_record account_resource_id lease.resource_ids) s.resources);
  leases =
      split_lease lease.lease_id (released_original_lease lease released_at)
        (invalidation_lease lease account_resource_id released_at) s.leases;
}

unfoldable pub split_events :
    ResourceLifecycleSnapshot
    → ResourceLease
    → ResourceRecord
    → String
    → Result (List ResourceTraceEvent)
split_events s lease account released_at = do
  let scoped = invalidation_lease lease account.resource_id released_at
  let taken : ResourceLease = record scoped {
    released_at = none;
    target_status_after_release = none;
    release_reason = none;
  }
  given_back ←
      build_release_resource_trace_events lease (released_original_lease lease released_at)
        (by_id s.resources)
  acquired ← build_acquired_resource_trace_events (invalidation_bundle lease account released_at)
  invalidated ← build_release_resource_trace_events taken scoped (by_id s.resources)
  ok (given_back ++ acquired ++ invalidated)
