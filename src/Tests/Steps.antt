-- ===== src/Tests/Steps.antt =====
-- Each theorem on commits, acquisition and release, applied to the sample data.
use syvert.Common.{
  ◌∷◌, false, ◌≡◌, ◌≢◌, refl, some, [], state_conflict, trace_persistence, not_terminated, ok, err,
}
use syvert.Lifecycle.Failures.{Failure}
use syvert.Store.Disk.{SnapshotFile, Io, all_well}
use syvert.Store.LifecycleStore.{commit_with_trace}
use syvert.Store.LifecycleStore.Commit.{
  Committed, commit_with_trace-failed, commit_with_trace-Committed,
  commit_with_trace-no_lost_update,
}
use syvert.Service.Acquire.{AcquireResult, acquire}
use syvert.Service.Acquire.Outcome.{Acquired, acquire-Acquired}
use syvert.Service.Acquire.Unchanged.{acquire-unchanged}
use syvert.Service.Release.{release_loop, finish_release}
use syvert.Service.Release.{release}
use syvert.Service.Release.Outcome.{Released}
use syvert.Service.Release.Stored.{release-Released}
use syvert.Service.Release.Settled.{release_loop-settled, release_loop-settled_unchanged}
use syvert.Service.Quiet.Acquire.{acquire-once}
use syvert.Service.Quiet.Release.{release-once}
use syvert.Store.Seeding.{seed_resources}
use syvert.Store.Seeding.Stored.{Seeding, seed_resources-Seeding, seed_resources-failed}
use syvert.Tests.Program.{program}
use syvert.Tests.Samples.{
  calm, seeded, held, given_back, acquire_value, release_value, account, proxy,
}
use syvert.Tests.Derived.{
  held_snapshot, held_events, held_bundle, given_back_snapshot, settled, settled-Settled, ban,
  blind,
}

-- The write of the snapshot fails, after the events were written.
abbrev full_disk : Io
full_disk = record all_well { snapshot_write = false }

commit_with_trace-failed_example :
    (commit_with_trace full_disk held_snapshot held_events seeded.disk).1.snapshot_file
    ≡ seeded.disk.snapshot_file
unfolding program
commit_with_trace-failed_example =
    commit_with_trace-failed full_disk held_snapshot held_events seeded.disk state_conflict refl

commit_with_trace-Committed_example :
    Committed all_well held_snapshot held_snapshot held_events seeded.disk
      (commit_with_trace all_well held_snapshot held_events seeded.disk).1
unfolding program
commit_with_trace-Committed_example =
    commit_with_trace-Committed all_well held_snapshot held_snapshot held_events seeded.disk refl

commit_with_trace-no_lost_update_example :
    (commit_with_trace all_well held_snapshot []
      (commit_with_trace all_well held_snapshot held_events seeded.disk).1).0
    ≢ ok held_snapshot
unfolding program
commit_with_trace-no_lost_update_example =
    commit_with_trace-no_lost_update all_well all_well held_snapshot held_snapshot held_snapshot
      held_snapshot held_events [] seeded.disk refl refl

acquire-Acquired_example :
    Acquired held_bundle (acquire calm 1 acquire_value "task-1" seeded).1.disk
unfolding program
acquire-Acquired_example = acquire-Acquired calm 1 acquire_value "task-1" seeded held_bundle refl

unavailable_failure : Failure
unavailable_failure = record {
  task_id = "task-1";
  adapter_key = "xhs";
  capability = "search";
  category = "runtime_contract";
  code = "resource_unavailable";
}

-- A second task finds no resource that is free.
acquire-held :
    (acquire calm 1 acquire_value "task-1" held).0 ≡ ok (AcquireResult.failed unavailable_failure)
unfolding program unavailable_failure
acquire-held = refl

acquire-unchanged_example :
    (acquire calm 1 acquire_value "task-1" held).1.disk.snapshot_file ≡ held.disk.snapshot_file
acquire-unchanged_example =
    acquire-unchanged calm (λ n d. refl) 1 acquire_value "task-1" held (λ b h. cc (h, acquire-held))

release_loop-settled_example :
    (settled ≡ settled)
    × (settled.target_status_after_release ≡ some "INVALID")
    × (settled.release_reason ≡ some "banned")
unfolding program
release_loop-settled_example =
    release_loop-settled calm 0 ban given_back_snapshot settled settled given_back settled-Settled
      refl

release_loop-settled_unchanged_example :
    (release_loop calm 1 ban given_back_snapshot given_back).1.disk ≡ given_back.disk
release_loop-settled_unchanged_example =
    release_loop-settled_unchanged calm 0 ban given_back_snapshot settled given_back (λ n d. refl)
      settled-Settled

-- A repeated release whose trace file cannot be read ends in a raised error and not in a failure
-- envelope.
blind-raised :
    finish_release "task-1" "xhs" "search" (release_loop calm 1 ban given_back_snapshot blind).0
    ≡ err trace_persistence
unfolding program
blind-raised = refl

release-Released_example : Released ban settled (release calm 1 release_value "task-1" held).1.disk
unfolding program
release-Released_example =
    release-Released calm 1 release_value "task-1" held ban settled (λ n d. refl) refl refl

acquire-once_example :
    ((acquire calm 3 acquire_value "task-1" seeded).0 ≢ err not_terminated)
    × (acquire calm 3 acquire_value "task-1" seeded ≡ acquire calm 1 acquire_value "task-1" seeded)
acquire-once_example = acquire-once calm 2 acquire_value "task-1" seeded (λ n d. refl)

release-once_example :
    ((release calm 3 release_value "task-1" held).0 ≢ err not_terminated)
    × (release calm 3 release_value "task-1" held ≡ release calm 1 release_value "task-1" held)
release-once_example = release-once calm 2 release_value "task-1" held (λ n d. refl)

seed_resources-Seeding_example :
    Seeding SnapshotFile.absent seeded.disk.snapshot_file (account ∷ proxy ∷ [])
unfolding program
seed_resources-Seeding_example =
    seed_resources-Seeding all_well (account ∷ proxy ∷ []) SnapshotFile.absent
      (account ∷ proxy ∷ []) refl

seed_resources-failed_example :
    (seed_resources full_disk (account ∷ []) SnapshotFile.absent).1 ≡ SnapshotFile.absent
unfolding program
seed_resources-failed_example =
    seed_resources-failed full_disk (account ∷ []) SnapshotFile.absent state_conflict refl
