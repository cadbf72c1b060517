-- ===== src/Lib.antt =====
-- A model of Syvert's resource lifecycle: the pool of accounts and proxies that tasks acquire for
-- a run and give back, the snapshot and the trace that record this on disk, and the validators
-- that both must pass.
--
-- The parts and how they interact. `acquire` and `release` (syvert/resource_lifecycle.py) read the
-- snapshot, choose or look up resources, build the next snapshot and its trace events, and hand
-- both to `commit_with_trace` (syvert/resource_lifecycle_store.py), which checks the revision,
-- merges the events into the trace (syvert/resource_trace_store.py) and replaces both files. Where
-- the revision has moved on, the two loops read the snapshot again and repeat the choice.
-- Before a run, `decide_resource_health_admission` judges the accounts by the newest evidence on
-- their sessions; during one, `invalidate_active_lease_from_health_evidence` takes an account that
-- was logged out of its lease, by `release` or by a commit of its own.
--
-- Which file models what:
--   Common: results as values, Python's dicts as association lists, Boolean tests.
--   Json: Python's values and `normalize_json_value` of syvert/task_record.py; Json/Normal has what
--     it gives.
--   Time: the two `parse_rfc3339_utc_datetime`.
--   Lifecycle/Types, Lifecycle/Records: data classes of syvert/resource_lifecycle.py and the
--     validators of one record, lease or bundle.
--   Lifecycle/Snapshot: `validate_snapshot`; Lifecycle/Snapshot/LeaseScan is its loop over the
--     leases, and the other children prove what a valid snapshot has.
--   Lifecycle/Requests, Lifecycle/Failures: normal forms of requests, failure envelopes.
--   Lifecycle/Selection, Lifecycle/Transitions, Lifecycle/Tracing: the choice of resources, the
--     moves of their statuses, and the bundles, leases and trace events that are built.
--   Lifecycle/Codec: snapshots, records, leases and bundles to JSON values and back.
--   Trace: syvert/resource_trace.py. Trace/Stream is `validate_resource_trace_stream`, and
--     Trace/Merge is `merge_resource_trace_events` of syvert/resource_trace_store.py.
--   Store: LocalResourceTraceStore (Store/TraceStore) and LocalResourceLifecycleStore
--     (Store/LifecycleStore, Store/Seeding) over the two files of Store/Disk.
--   Health: syvert/resource_health.py. Health/Evidence is `ResourceHealthEvidence` with its validator
--     and its JSON form, Health/Redaction the check for private tokens, Health/Admission
--     `decide_resource_health_admission`, and Health/Invalidation
--     `invalidate_active_lease_from_health_evidence`, with Health/Findings for its look at the
--     snapshot and Health/Split for the lease that is split; their children hold the proofs.
--   Service: `acquire` and `release` in surroundings where others write (Service/World);
--     Service/Faults is about what their callees raise, and Service/Quiet about quiet surroundings.
--   Tests: sample data, runs, and an application of each theorem.
--
-- State. `Disk` has the contents of the two files. An operation that writes takes the disk and
-- returns it; it is one step, since the code does it under exclusive file locks. `Io` says which of
-- its system calls succeed. `World` counts the accesses of a run to the disk, and `Env` gives by
-- that count what other processes did to the disk in between, the clock, and the answers of
-- `uuid4`: all of them are arguments, and a theorem that needs quiet surroundings says so.
--
-- Errors. An exception is a constructor of `Error`, which stands for its class with the message
-- prefix by which the code classifies it. The rest of a message is not modelled.
--
-- Fuel. The loops of `acquire` and `release` are by the number of rounds that they may take; with
-- none left they answer `not_terminated`, which no branch of the code raises. A round is repeated
-- only after a write that met a new revision, so that no fixed number is enough for all
-- surroundings: the theorems hold for each number, or for each but zero. Only another process
-- can store such a revision.
--
-- Representation. What Python's `str.lower` and `re` know of Unicode is the argument `Unicode`. A
-- Python int is a natural number where the code demands that it is not negative.
-- A list and a tuple are distinct values. An instant is a number in mixed radix, which is ordered as datetimes are. A float is the number of
-- its bits.
--
-- Not modelled: mappings given to `canonical_snapshot` in place of its data classes (its callers here
-- hand over a `ResourceLifecycleSnapshot`), the text of the JSON files, temporary files and locks inside an atomic write (one
-- step), paths and environment variables, the branch of `write_snapshot_with_tracing` for stores
-- without `commit_with_trace`, and the parts of the repository outside the resource lifecycle and its health:
-- the runtime and its task records, the adapters, the command line and HTTP interfaces, and the
-- gates and evidence checks.
pub mod Common
pub mod Json
pub mod Time
pub mod Lifecycle
pub mod Trace
pub mod Store
pub mod Service
pub mod Health
pub mod Tests
