-- ===== src/Store/LifecycleStore.antt =====
-- LocalResourceLifecycleStore of syvert/resource_lifecycle_store.py, but for `seed_resources`.
pub mod Commit
use syvert.Common.{
  ℕ, suc, String, Bool, true, false, Option, none, some, List, [], ◌∷◌, eqb, Error, Result, ok, err,
  state_conflict, revision_conflict, Check, require, ◌>>=◌, ◌>>◌, if◌then◌else◌,
}
use syvert.Json.{Value}
use syvert.Trace.Types.{ResourceTraceEvent}
use syvert.Trace.Merge.{merge_resource_trace_events}
use syvert.Lifecycle.Types.{ResourceLifecycleSnapshot, empty_snapshot}
use syvert.Lifecycle.Codec.{snapshot_to_dict, snapshot_from_dict, canonical_snapshot}
use syvert.Store.Disk.{SnapshotFile, TraceFile, Disk, Io}
use syvert.Store.TraceStore.{load_events, write_events}

-- What is raised comes out as a `ResourceLifecyclePersistenceError`.
unfoldable pub as_conflict {ℓ} : {A : Type ℓ} → Result A → Result A
as_conflict (ok a) = ok a
as_conflict (err e) = err state_conflict

unfoldable pub load_snapshot : SnapshotFile → Result ResourceLifecycleSnapshot
unfolding as_conflict
load_snapshot SnapshotFile.absent = ok empty_snapshot
load_snapshot SnapshotFile.unreadable = err state_conflict
load_snapshot (SnapshotFile.holds v) = as_conflict (snapshot_from_dict v)

-- The revision must follow the one on disk.
unfoldable pub check_revision : ResourceLifecycleSnapshot → SnapshotFile → Check
check_revision s file = do
  current ← load_snapshot file
  require (eqb s.revision (suc current.revision)) revision_conflict

unfoldable pub write_json_atomic : Bool → Value → SnapshotFile → Check × SnapshotFile
write_json_atomic writes v file =
    if writes then (ok tt, SnapshotFile.holds v) else (err state_conflict, file)

unfoldable pub write_snapshot_locked :
    Bool → ResourceLifecycleSnapshot → SnapshotFile → Check × SnapshotFile
unfolding write_json_atomic
write_snapshot_locked writes s file = elim (do check_revision s file; snapshot_to_dict s) [
  | err e ↦ (err e, file)
  | ok v ↦ write_json_atomic writes v file
]

unfoldable pub write_snapshot :
    Io → ResourceLifecycleSnapshot → SnapshotFile → Result ResourceLifecycleSnapshot × SnapshotFile
unfolding as_conflict
write_snapshot io s file =
    elim (do
      canonical ← as_conflict (canonical_snapshot s)
      require io.snapshot_lock state_conflict
      ok canonical) [
        | err e ↦ (err e, file)
        | ok canonical ↦
            (let (written, file') = write_snapshot_locked io.snapshot_write canonical file in
              ((do written; ok canonical), file'))
      ]

-- What `commit_with_trace` knows before it writes.
pub record Plan : Type 0 where
  pub snapshot : ResourceLifecycleSnapshot
  pub current_events : List ResourceTraceEvent
  pub merged_events : List ResourceTraceEvent

unfoldable pub prepare_commit :
    Io → ResourceLifecycleSnapshot → List ResourceTraceEvent → Disk → Result Plan
unfolding as_conflict
prepare_commit io s events d = do
  canonical ← as_conflict (canonical_snapshot s)
  require io.trace_lock Error.trace_persistence
  require io.snapshot_lock state_conflict
  check_revision canonical d.snapshot_file
  current ← load_events d.trace_file
  (merged, appended) ← merge_resource_trace_events current events
  ok (record { snapshot = canonical; current_events = current; merged_events = merged })

-- The handler of a snapshot that could not be written, once the events were: they are written back.
unfoldable pub roll_back : Io → Plan → Disk → Result ResourceLifecycleSnapshot × Disk
roll_back io plan d =
    let (rolled_back, file) = write_events io.rollback_write plan.current_events d.trace_file in
    (err state_conflict, record d { trace_file = file })

-- The snapshot, after the events were written.
unfoldable pub write_after_trace : Io → Plan → Disk → Result ResourceLifecycleSnapshot × Disk
unfolding as_conflict write_json_atomic roll_back
write_after_trace io plan d = elim (as_conflict (snapshot_to_dict plan.snapshot)) [
  | err e ↦ roll_back io plan d
  | ok v ↦
      (let (written, file) = write_json_atomic io.snapshot_write v d.snapshot_file in
        elim written [
          | err e ↦ roll_back io plan d
          | ok _ ↦ (ok plan.snapshot, record d { snapshot_file = file })
        ])
]

unfoldable pub write_both : Io → Plan → Disk → Result ResourceLifecycleSnapshot × Disk
write_both io plan d =
    let (written, file) = write_events io.trace_write plan.merged_events d.trace_file in
    elim written [
      | err e ↦ (err e, d)
      | ok _ ↦ write_after_trace io plan (record d { trace_file = file })
    ]

unfoldable pub commit_with_trace :
    Io
    → ResourceLifecycleSnapshot
    → List ResourceTraceEvent
    → Disk
    → Result ResourceLifecycleSnapshot × Disk
commit_with_trace io s events d = elim (prepare_commit io s events d) [
  | err e ↦ (err e, d)
  | ok plan ↦ write_both io plan d
]
