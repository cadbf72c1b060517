-- ===== src/Store/LifecycleStore/Commit.antt =====
-- What a commit of `commit_with_trace` leaves on disk.
use syvert.Common.{
  All, subst, Result, suc, ◌≡◌, ◌≢◌, sym, ap, ◌∙◌, inl, inr, List, arith, Error, ok, err,
  state_conflict, pass, require, >>=-eq-ok, >>-eq-ok, ok_injective, Result-cases,
}
use syvert.Trace.Types.{ResourceTraceEvent}
use syvert.Trace.Merge.{merge_resource_trace_events}
use syvert.Lifecycle.Types.{ResourceLifecycleSnapshot}
use syvert.Lifecycle.Codec.{snapshot_to_dict, snapshot_from_dict, canonical_snapshot}
use syvert.Lifecycle.Codec.Canonical.{
  Normal, canonical_snapshot-Canonical, canonical_snapshot-Normal,
}
use syvert.Lifecycle.Codec.Normal.{snapshot-round_trip_self, snapshot_from_dict-Normal}
use syvert.Store.Disk.{SnapshotFile, Disk, Io}
use syvert.Store.TraceStore.{load_events, write_events}
use syvert.Store.LifecycleStore.{
  as_conflict, load_snapshot, check_revision, Plan, prepare_commit, write_after_trace, write_both,
  commit_with_trace,
}

write_after_trace-failed :
    (io : Io) (plan : Plan) (d : Disk) (e : Error)
    → (write_after_trace io plan d).0 ≡ err e
    → (write_after_trace io plan d).1.snapshot_file ≡ d.snapshot_file
unfolding write_after_trace
write_after_trace-failed io plan d e h = ground arith

write_both-failed :
    (io : Io) (plan : Plan) (d : Disk) (e : Error)
    → (write_both io plan d).0 ≡ err e
    → (write_both io plan d).1.snapshot_file ≡ d.snapshot_file
unfolding write_both
write_both-failed io plan d e h = ground (
  arith,
  write_after_trace-failed io plan
      (record d { trace_file = (write_events io.trace_write plan.merged_events d.trace_file).1 }) e,
)

-- A commit_with_trace that fails, with whatever error and whichever of its system calls failed,
-- leaves the snapshot's file as it was.
pub commit_with_trace-failed :
    (io : Io) (s : ResourceLifecycleSnapshot) (events : List ResourceTraceEvent) (d : Disk)
    (e : Error)
    → (commit_with_trace io s events d).0 ≡ err e
    → (commit_with_trace io s events d).1.snapshot_file ≡ d.snapshot_file
unfolding commit_with_trace
commit_with_trace-failed io s events d e h = elim (Result-cases (prepare_commit io s events d)) [
  | inl (plan, p) ↦ ground (arith, p, write_both-failed io plan d e)
  | inr (e', p) ↦ ground (arith, p)
]

-- What a commit that succeeded went through.
pub record Committed (io : Io) (s s' : ResourceLifecycleSnapshot) (events : List ResourceTraceEvent)
    (d d' : Disk) : Type 0 where
  pub canonical : canonical_snapshot s ≡ ok s'
  pub current : ResourceLifecycleSnapshot
  pub loaded : load_snapshot d.snapshot_file ≡ ok current
  pub follows : s.revision ≡ suc current.revision
  pub stored : load_snapshot d'.snapshot_file ≡ ok s'

write_after_trace-ok :
    (io : Io) (plan : Plan) (d : Disk) (s' : ResourceLifecycleSnapshot)
    → All Normal plan.snapshot.resources
    → (write_after_trace io plan d).0 ≡ ok s'
    → (s' ≡ plan.snapshot) × (load_snapshot (write_after_trace io plan d).1.snapshot_file ≡ ok s')
unfolding write_after_trace load_snapshot
write_after_trace-ok io plan d s' normal h = elim (Result-cases (snapshot_to_dict plan.snapshot)) [
  | inl (v, e) ↦
      (ground (arith, e), ground (arith, e, snapshot-round_trip_self plan.snapshot e normal))
  | inr (x, e) ↦ absurd (ground (arith, e, h))
]

write_both-ok :
    (io : Io) (plan : Plan) (d : Disk) (s' : ResourceLifecycleSnapshot)
    → All Normal plan.snapshot.resources
    → (write_both io plan d).0 ≡ ok s'
    → (s' ≡ plan.snapshot) × (load_snapshot (write_both io plan d).1.snapshot_file ≡ ok s')
unfolding write_both
write_both-ok io plan d s' normal h =
    let after = record d {
      trace_file = (write_events io.trace_write plan.merged_events d.trace_file).1;
    } in
    elim (Result-cases (write_events io.trace_write plan.merged_events d.trace_file).0) [
      | inl (es, e) ↦
          rw (e, write_both) (write_after_trace-ok io plan _ s' normal (rw (e, write_both) at h))
      | inr (x, e) ↦ absurd (ground (arith, e, h))
    ]

pub as_conflict-ok {ℓ} : {A : Type ℓ} (m : Result A) {a : A} → as_conflict m ≡ ok a → m ≡ ok a
unfolding as_conflict
as_conflict-ok (ok a) h = h
as_conflict-ok (err e) h = cc

prepare_commit-snapshot :
    (io : Io) (s : ResourceLifecycleSnapshot) (events : List ResourceTraceEvent) (d : Disk)
    (plan : Plan)
    → prepare_commit io s events d ≡ ok plan
    → (canonical_snapshot s ≡ ok plan.snapshot)
      × (check_revision plan.snapshot d.snapshot_file ≡ pass)
unfolding prepare_commit
prepare_commit-snapshot io s events d plan h =
    let (canonical, e, h) = >>=-eq-ok (as_conflict (canonical_snapshot s)) _ h in
    let (_, h) = >>-eq-ok (require io.trace_lock Error.trace_persistence) _ h in
    let (_, h) = >>-eq-ok (require io.snapshot_lock state_conflict) _ h in
    let (follows, h) = >>-eq-ok (check_revision canonical d.snapshot_file) _ h in
    let (current, loaded, h) = >>=-eq-ok (load_events d.trace_file) _ h in
    let (merge, merged, h) = >>=-eq-ok (merge_resource_trace_events current events) _ h in
    let same : canonical ≡ plan.snapshot = ap (λ (x : Plan). x.snapshot) (ok_injective h) in
    (
      as_conflict-ok (canonical_snapshot s) e ∙ ap ok same,
      ap (λ x. check_revision x d.snapshot_file) (sym same) ∙ follows,
    )

check_revision-pass :
    (s : ResourceLifecycleSnapshot) (file : SnapshotFile)
    → check_revision s file ≡ pass
    → (current : ResourceLifecycleSnapshot) × (load_snapshot file ≡ ok current)
      × (s.revision ≡ suc current.revision)
unfolding check_revision
check_revision-pass s file h =
    let (current, e, h) = >>=-eq-ok (load_snapshot file) _ h in (current, e, ground (arith, h))

-- A commit_with_trace that succeeds returns the canonical form of its snapshot, found a snapshot
-- with the revision before on disk, and leaves a disk from which load_snapshot reads what was
-- returned.
pub commit_with_trace-Committed :
    (io : Io) (s s' : ResourceLifecycleSnapshot) (events : List ResourceTraceEvent) (d : Disk)
    → (commit_with_trace io s events d).0 ≡ ok s'
    → Committed io s s' events d (commit_with_trace io s events d).1
unfolding commit_with_trace
commit_with_trace-Committed io s s' events d h =
    elim (Result-cases (prepare_commit io s events d)) [
      | inl (plan, p) ↦
          (let (canonical, follows) = prepare_commit-snapshot io s events d plan p in
            let (current, loaded, next) =
              check_revision-pass plan.snapshot d.snapshot_file follows in
            let (is, stored) =
              write_both-ok io plan d s' (canonical_snapshot-Normal s canonical)
                (rw (p, commit_with_trace) at h) in
            let revision = (canonical_snapshot-Canonical s canonical).revision in
            rw (p, commit_with_trace)
              (record {
                canonical = canonical ∙ ap ok (sym is);
                current = current;
                loaded = loaded;
                follows = sym revision ∙ next;
                stored = stored;
              }))
      | inr (e, p) ↦ absurd (ground (arith, p, h))
    ]

-- Of two snapshots with the same revision, once commit_with_trace has stored the first,
-- commit_with_trace of the second on the disk that this left does not succeed: no update is lost.
pub commit_with_trace-no_lost_update :
    (io io' : Io) (s t s' t' : ResourceLifecycleSnapshot) (events more : List ResourceTraceEvent)
    (d : Disk)
    → t.revision ≡ s.revision
    → (commit_with_trace io s events d).0 ≡ ok s'
    → (commit_with_trace io' t more (commit_with_trace io s events d).1).0 ≢ ok t'
commit_with_trace-no_lost_update io io' s t s' t' events more d same first second =
    let a = commit_with_trace-Committed io s s' events d first in
    let b = commit_with_trace-Committed io' t t' more (commit_with_trace io s events d).1 second in
    let e : b.current ≡ s' = ok_injective (sym b.loaded ∙ a.stored) in
    let kept = (canonical_snapshot-Canonical s a.canonical).revision in
    omega (arith, b.follows, same, kept, ap (λ (x : ResourceLifecycleSnapshot). x.revision) e)

-- What `load_snapshot` reads has normal materials.
pub load_snapshot-Normal :
    (file : SnapshotFile) {s : ResourceLifecycleSnapshot}
    → load_snapshot file ≡ ok s
    → All Normal s.resources
unfolding load_snapshot
load_snapshot-Normal SnapshotFile.absent h =
    subst (λ (x : ResourceLifecycleSnapshot). All Normal x.resources) (ok_injective h) tt
load_snapshot-Normal SnapshotFile.unreadable h = cc
load_snapshot-Normal (SnapshotFile.holds v) h =
    snapshot_from_dict-Normal v (as_conflict-ok (snapshot_from_dict v) h)
