-- ===== src/Tests/Derived.antt =====
-- What the sample runs leave: the snapshots, the events, the bundle and the lease.
use syvert.Common.{◌≡◌, refl, none, List, [], ◌∷◌, Result, ok, err, pass}
use syvert.Trace.Types.{ResourceTraceEvent}
use syvert.Trace.Stream.{validate_resource_trace_stream}
use syvert.Lifecycle.Types.{
  ResourceBundle, ResourceLease, ReleaseRequest, ResourceLifecycleSnapshot, empty_snapshot,
}
use syvert.Lifecycle.Snapshot.{validate_snapshot}
use syvert.Lifecycle.Tracing.{build_resource_lease}
use syvert.Store.Disk.{TraceFile}
use syvert.Store.LifecycleStore.{load_snapshot}
use syvert.Store.TraceStore.{load_events}
use syvert.Service.World.{World}
use syvert.Service.Acquire.{AcquireResult, acquire}
use syvert.Service.Release.{ReleaseResult, release}
use syvert.Service.Release.Settled.{Settled}
use syvert.Tests.Program.{program}
use syvert.Tests.Samples.{calm, seeded, acquire_value, release_value, held, given_back}

abbrev or_else : {A : Type 0} → A → Result A → A
or_else a (ok b) = b
or_else a (err e) = a

abbrev pub seeded_snapshot : ResourceLifecycleSnapshot
seeded_snapshot = or_else empty_snapshot (load_snapshot seeded.disk.snapshot_file)

abbrev pub held_snapshot : ResourceLifecycleSnapshot
held_snapshot = or_else empty_snapshot (load_snapshot held.disk.snapshot_file)

abbrev pub given_back_snapshot : ResourceLifecycleSnapshot
given_back_snapshot = or_else empty_snapshot (load_snapshot given_back.disk.snapshot_file)

abbrev pub held_events : List ResourceTraceEvent
held_events = or_else [] (load_events held.disk.trace_file)

abbrev pub given_back_events : List ResourceTraceEvent
given_back_events = or_else [] (load_events given_back.disk.trace_file)

abbrev pub no_event : ResourceTraceEvent
no_event = record {
  event_id = "";
  task_id = "";
  lease_id = "";
  bundle_id = "";
  resource_id = "";
  resource_type = "";
  adapter_key = "";
  capability = "";
  event_type = "";
  from_status = "";
  to_status = "";
  occurred_at = "";
  reason = "";
}

-- The first and the second event, and `no_event` where there is none.
abbrev pub first_event : List ResourceTraceEvent → ResourceTraceEvent
first_event [] = no_event
first_event (e ∷ es) = e

abbrev pub second_event : List ResourceTraceEvent → ResourceTraceEvent
second_event [] = no_event
second_event (e ∷ es) = first_event es

abbrev no_bundle : ResourceBundle
no_bundle = record {
  bundle_id = "";
  lease_id = "";
  task_id = "";
  adapter_key = "";
  capability = "";
  requested_slots = [];
  acquired_at = "";
  account = none;
  proxy = none;
}

abbrev bundle_of : Result AcquireResult → ResourceBundle
bundle_of (ok (AcquireResult.acquired b)) = b
bundle_of _ = no_bundle

abbrev pub held_bundle : ResourceBundle
held_bundle = bundle_of (acquire calm 1 acquire_value "task-1" seeded).0

abbrev no_lease : ResourceLease
no_lease = record {
  lease_id = "";
  bundle_id = "";
  task_id = "";
  adapter_key = "";
  capability = "";
  resource_ids = [];
  acquired_at = "";
  released_at = none;
  target_status_after_release = none;
  release_reason = none;
}

abbrev lease_of : Result ReleaseResult → ResourceLease
lease_of (ok (ReleaseResult.released l)) = l
lease_of _ = no_lease

abbrev pub settled : ResourceLease
settled = lease_of (release calm 1 release_value "task-1" held).0

abbrev pub held_lease : ResourceLease
held_lease = or_else no_lease (build_resource_lease held_bundle)

abbrev pub ban : ReleaseRequest
ban = record {
  lease_id = "lease-a1";
  task_id = "task-1";
  target_status_after_release = "INVALID";
  reason = "banned";
}

-- The world after the release, but its trace file cannot be read.
abbrev pub blind : World
blind = record {
  step = given_back.step;
  disk = record {
    snapshot_file = given_back.disk.snapshot_file;
    trace_file = TraceFile.unreadable;
  };
}

pub held_snapshot-valid : validate_snapshot held_snapshot ≡ pass
unfolding program
held_snapshot-valid = refl

pub given_back_snapshot-valid : validate_snapshot given_back_snapshot ≡ pass
unfolding program
given_back_snapshot-valid = refl

pub given_back_events-valid :
    validate_resource_trace_stream given_back_events ≡ ok given_back_events
unfolding program
given_back_events-valid = refl

pub settled-Settled : Settled ban given_back_snapshot settled
unfolding program
settled-Settled = record { own = refl; settled = refl }
