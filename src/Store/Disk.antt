-- ===== src/Store/Disk.antt =====
-- What the two stores keep: a JSON file with the snapshot, and a file with one JSON event to a line.
-- The JSON text itself is not modelled: a file holds values. An operation that writes is one step
-- under the stores' exclusive locks, and `Io` says which of its system calls succeed.
use syvert.Common.{Bool, true, List}
use syvert.Json.{Value}

pub data SnapshotFile : Type 0 where
  absent unreadable : SnapshotFile
  holds : Value → SnapshotFile

pub data TraceFile : Type 0 where
  absent unreadable : TraceFile
  lines : List Value → TraceFile

pub record Disk : Type 0 where
  pub snapshot_file : SnapshotFile
  pub trace_file : TraceFile

pub record Io : Type 0 where
  pub trace_lock : Bool
  pub snapshot_lock : Bool
  pub trace_write : Bool
  pub snapshot_write : Bool
  pub rollback_write : Bool

abbrev pub all_well : Io
all_well = record {
  trace_lock = true;
  snapshot_lock = true;
  trace_write = true;
  snapshot_write = true;
  rollback_write = true;
}
