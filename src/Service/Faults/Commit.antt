-- ===== src/Service/Faults/Commit.antt =====
-- A commit of the snapshot that follows the one on disk.
use syvert.Common.{
  ℕ, suc, Bool, true, false, List, inl, inr, Result, ok, err, state_conflict, trace_persistence,
  eqb, refl, ◌≡◌, ◌∙◌, ap, arith, Bool-cases, Result-cases,
}
use syvert.Common.Raises.{
  Raises-ok, Raises-err, Raises-bind, Raises-bind_eq, Raises-then, Raises-require,
}
use syvert.Json.{Value}
use syvert.Trace.Types.{ResourceTraceEvent}
use syvert.Lifecycle.Types.{ResourceLifecycleSnapshot}
use syvert.Lifecycle.Codec.{canonical_snapshot, snapshot_to_dict}
use syvert.Lifecycle.Codec.Canonical.{canonical_snapshot-Canonical}
use syvert.Lifecycle.Failures.{is_lifecycle_error}
use syvert.Store.Disk.{SnapshotFile, Disk, Io}
use syvert.Store.TraceStore.{write_events}
use syvert.Store.LifecycleStore.{
  as_conflict, load_snapshot, check_revision, write_json_atomic, Plan, prepare_commit, roll_back,
  write_after_trace, write_both, commit_with_trace,
}
use syvert.Store.LifecycleStore.Commit.{as_conflict-ok}
use syvert.Service.World.{Env, World, met, load_checked, coerce_error, write_snapshot_with_tracing}
use syvert.Service.Release.Outcome.{load_checked-stored}
use syvert.Service.Faults.{Ordinary}
use syvert.Service.Faults.Snapshot.{as_conflict-Ordinary}
use syvert.Service.Faults.Trace.{merge-Ordinary, load_events-Ordinary, write_events-Ordinary}

check_revision-follows :
    (s current : ResourceLifecycleSnapshot) (file : SnapshotFile)
    → load_snapshot file ≡ ok current
    → s.revision ≡ suc current.revision
    → Ordinary (check_revision s file)
unfolding check_revision
check_revision-follows s current file loaded next =
    let same : eqb s.revision (suc current.revision) ≡ true = ground (arith, next) in
    rw (loaded, check_revision) (rw same (Raises-ok tt))

prepare_commit-Ordinary :
    (io : Io) (s current : ResourceLifecycleSnapshot) (events : List ResourceTraceEvent) (d : Disk)
    → load_snapshot d.snapshot_file ≡ ok current
    → s.revision ≡ suc current.revision
    → Ordinary (prepare_commit io s events d)
unfolding prepare_commit
prepare_commit-Ordinary io s current events d loaded next =
    Raises-bind_eq (as_conflict (canonical_snapshot s)) _
      (as_conflict-Ordinary (canonical_snapshot s))
      (λ canonical p.
        let same =
          (canonical_snapshot-Canonical s (as_conflict-ok (canonical_snapshot s) p)).revision in
        Raises-then _ _ (Raises-require io.trace_lock trace_persistence refl) (
          Raises-then _ _ (Raises-require io.snapshot_lock state_conflict refl) (
            Raises-then _ _
              (check_revision-follows canonical current d.snapshot_file loaded (same ∙ next))
              (Raises-bind _ _ (load_events-Ordinary d.trace_file) (λ old.
                Raises-bind _ _ (merge-Ordinary old events) (λ (merged, appended). Raises-ok _))))))

write_json_atomic-Ordinary :
    (b : Bool) (v : Value) (f : SnapshotFile) → Ordinary (write_json_atomic b v f).0
unfolding write_json_atomic
write_json_atomic-Ordinary true v f = Raises-ok _
write_json_atomic-Ordinary false v f = Raises-err state_conflict refl

roll_back-Ordinary : (io : Io) (plan : Plan) (d : Disk) → Ordinary (roll_back io plan d).0
unfolding roll_back
roll_back-Ordinary io plan d = Raises-err state_conflict refl

write_after_trace-Ordinary :
    (io : Io) (plan : Plan) (d : Disk) → Ordinary (write_after_trace io plan d).0
unfolding write_after_trace
write_after_trace-Ordinary io plan d =
    elim (Result-cases (as_conflict (snapshot_to_dict plan.snapshot))) [
      | inr (e, p) ↦ rw (p, write_after_trace) (roll_back-Ordinary io plan d)
      | inl (v, p) ↦ elim (Result-cases (write_json_atomic io.snapshot_write v d.snapshot_file).0) [
        | inr (e, q) ↦
            rw (p, write_after_trace) (rw (q, write_after_trace) (roll_back-Ordinary io plan d))
        | inl (_, q) ↦ rw (p, write_after_trace) (rw (q, write_after_trace) (Raises-ok _))
      ]
    ]

write_both-Ordinary : (io : Io) (plan : Plan) (d : Disk) → Ordinary (write_both io plan d).0
unfolding write_both
write_both-Ordinary io plan d =
    elim (Result-cases (write_events io.trace_write plan.merged_events d.trace_file).0) [
      | inr (e, p) ↦
          rw (p, write_both)
            (Raises-err e
              ((write_events-Ordinary io.trace_write plan.merged_events d.trace_file).raised e p))
      | inl (_, p) ↦ rw (p, write_both) (write_after_trace-Ordinary io plan _)
    ]

commit_with_trace-Ordinary :
    (io : Io) (s current : ResourceLifecycleSnapshot) (events : List ResourceTraceEvent) (d : Disk)
    → load_snapshot d.snapshot_file ≡ ok current
    → s.revision ≡ suc current.revision
    → Ordinary (commit_with_trace io s events d).0
unfolding commit_with_trace
commit_with_trace-Ordinary io s current events d loaded next =
    elim (Result-cases (prepare_commit io s events d)) [
      | inr (e, p) ↦
          rw (p, commit_with_trace)
            (Raises-err e ((prepare_commit-Ordinary io s current events d loaded next).raised e p))
      | inl (plan, p) ↦ rw (p, commit_with_trace) (write_both-Ordinary io plan d)
    ]

coerce_error-Ordinary {ℓ} : {A : Type ℓ} (m : Result A) → Ordinary m → Ordinary (coerce_error m)
unfolding coerce_error
coerce_error-Ordinary (ok a) p = p
coerce_error-Ordinary (err e) p = elim (Bool-cases (is_lifecycle_error e)) [
  | inl i ↦ rw i p
  | inr i ↦ rw i (Raises-err state_conflict refl)
]

-- Where no other process writes, the write of the next revision meets no conflict of revisions.
pub write_snapshot_with_tracing-Ordinary :
    (env : Env) (s current : ResourceLifecycleSnapshot) (events : List ResourceTraceEvent)
    (w : World)
    → ((n : ℕ) (d : Disk) → env.others n d ≡ d)
    → load_checked w.disk ≡ ok current
    → s.revision ≡ suc current.revision
    → Ordinary (write_snapshot_with_tracing env s events w).0
unfolding write_snapshot_with_tracing
write_snapshot_with_tracing-Ordinary env s current events w quiet read next =
    coerce_error-Ordinary (commit_with_trace (env.io w.step) s events (met env w)).0 (
      commit_with_trace-Ordinary (env.io w.step) s current events (met env w)
        (ap (λ (d : Disk). load_snapshot d.snapshot_file) (quiet w.step w.disk)
          ∙ (load_checked-stored w.disk read).0)
        next)
