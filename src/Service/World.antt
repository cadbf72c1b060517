-- ===== src/Service/World.antt =====
-- The surroundings of `acquire` and `release`: the disk, which other processes may change before
-- each access of ours, the clock, and the identifiers that `uuid4` draws. Nothing is assumed of
-- them: they are arguments.
use syvert.Common.{
  ℕ, suc, String, List, Result, ok, err, state_conflict, ◌>>=◌, ◌>>◌, if◌then◌else◌,
}
use syvert.Trace.Types.{ResourceTraceEvent}
use syvert.Lifecycle.Types.{ResourceLifecycleSnapshot}
use syvert.Lifecycle.Failures.{is_lifecycle_error}
use syvert.Lifecycle.Codec.{canonical_snapshot}
use syvert.Lifecycle.Snapshot.{validate_snapshot}
use syvert.Store.Disk.{Disk, Io}
use syvert.Store.LifecycleStore.{load_snapshot, commit_with_trace}

-- Each function is asked with the number of accesses to the store so far.
pub record Env : Type 0 where
  pub others : ℕ → Disk → Disk
  pub io : ℕ → Io
  pub now : ℕ → String
  pub bundle_hex : ℕ → String
  pub lease_hex : ℕ → String

pub record World : Type 0 where
  pub step : ℕ
  pub disk : Disk

-- The disk that the next access meets.
abbrev pub met : Env → World → Disk
met env w = env.others w.step w.disk

-- `load_snapshot_from_store`, followed by `validate_snapshot`
unfoldable pub load_checked : Disk → Result ResourceLifecycleSnapshot
load_checked d = do
  raw ← load_snapshot d.snapshot_file
  s ← canonical_snapshot raw
  validate_snapshot s
  ok s

unfoldable pub load_from_store : Env → World → Result ResourceLifecycleSnapshot × World
load_from_store env w = (load_checked (met env w), record { step = suc w.step; disk = met env w })

-- A `ResourceLifecycleContractError` is passed on, and any other error comes out as a conflict.
unfoldable pub coerce_error {ℓ} : {A : Type ℓ} → Result A → Result A
coerce_error (ok a) = ok a
coerce_error (err e) = if is_lifecycle_error e then err e else err state_conflict

-- `write_snapshot_with_tracing` on a store that has `commit_with_trace`
unfoldable pub write_snapshot_with_tracing :
    Env
    → ResourceLifecycleSnapshot
    → List ResourceTraceEvent
    → World
    → Result ResourceLifecycleSnapshot × World
write_snapshot_with_tracing env s events w =
    let (written, d) = commit_with_trace (env.io w.step) s events (met env w) in
    (coerce_error written, record { step = suc w.step; disk = d })
