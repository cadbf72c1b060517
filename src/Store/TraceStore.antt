-- ===== src/Store/TraceStore.antt =====
-- LocalResourceTraceStore of syvert/resource_trace_store.py.
use syvert.Common.{
  String, Bool, none, some, List, [], ◌∷◌, Result, ok, err, trace_persistence, require, traverse,
  ◌>>=◌, ◌>>◌, if◌then◌else◌,
}
use syvert.Json.{Value}
use syvert.Trace.Types.{ResourceTraceEvent, TaskResourceUsageLog, ResourceLeaseTimeline}
use syvert.Trace.Events.{
  validate_resource_trace_event, resource_trace_event_to_dict, resource_trace_event_from_dict,
}
use syvert.Trace.Stream.{
  drop_repeats, validate_resource_trace_stream, build_task_resource_usage_log,
  resource_trace_events_for_resource,
}
use syvert.Trace.Timeline.{build_resource_lease_timeline}
use syvert.Trace.Merge.{merge_resource_trace_events}
use syvert.Store.Disk.{TraceFile, Io}

-- What is raised while reading comes out as a `ResourceTracePersistenceError`.
unfoldable pub as_persistence {ℓ} : {A : Type ℓ} → Result A → Result A
as_persistence (ok a) = ok a
as_persistence (err e) = err trace_persistence

-- `_read_events`: repeats are dropped as in `canonicalize_resource_trace_events`, but unsorted.
unfoldable pub read_events : List Value → Result (List ResourceTraceEvent)
read_events vs = do
  events ← traverse resource_trace_event_from_dict vs
  distinct ← drop_repeats [] events
  validate_resource_trace_stream distinct

unfoldable pub load_events : TraceFile → Result (List ResourceTraceEvent)
load_events TraceFile.absent = ok []
load_events TraceFile.unreadable = err trace_persistence
load_events (TraceFile.lines vs) = as_persistence (read_events vs)

-- The canonical events, and the lines that are written for them.
unfoldable pub encode_events :
    List ResourceTraceEvent → Result (List ResourceTraceEvent × List Value)
encode_events events = do
  canonical ← validate_resource_trace_stream events
  vs ← traverse resource_trace_event_to_dict canonical
  ok (canonical, vs)

-- The file is replaced at once, or left as it was.
unfoldable pub write_events :
    Bool → List ResourceTraceEvent → TraceFile → Result (List ResourceTraceEvent) × TraceFile
write_events writes events file = elim (encode_events events) [
  | err e ↦ (err e, file)
  | ok (canonical, vs) ↦
      if writes then (ok canonical, TraceFile.lines vs) else (err trace_persistence, file)
]

-- `events_to_append`, or nothing to do.
write_merged :
    Bool
    → TraceFile
    → List ResourceTraceEvent × List ResourceTraceEvent
    → Result (List ResourceTraceEvent) × TraceFile
write_merged writes file (merged, []) = (ok [], file)
write_merged writes file (merged, e ∷ es) =
    let (written, file') = write_events writes merged file in
    ((do canonical ← written; ok (e ∷ es)), file')

append_under_lock :
    Io → List ResourceTraceEvent → TraceFile → Result (List ResourceTraceEvent) × TraceFile
unfolding write_merged
append_under_lock io events file =
    elim (do
      require io.trace_lock trace_persistence
      current ← load_events file
      as_persistence (merge_resource_trace_events current events)) [
        | err e ↦ (err e, file)
        | ok merge ↦ write_merged io.trace_write file merge
      ]

validate_event : ResourceTraceEvent → Result ResourceTraceEvent
validate_event e = do validate_resource_trace_event e; ok e

unfoldable pub append_events :
    Io → List ResourceTraceEvent → TraceFile → Result (List ResourceTraceEvent) × TraceFile
unfolding append_under_lock validate_event
append_events io events file = elim (traverse validate_event events) [
  | err e ↦ (err e, file)
  | ok [] ↦ (ok [], file)
  | ok (e ∷ es) ↦ append_under_lock io (e ∷ es) file
]

unfoldable pub task_usage_log : TraceFile → String → Result TaskResourceUsageLog
task_usage_log file task_id = do
  events ← load_events file
  build_task_resource_usage_log events task_id

unfoldable pub lease_timeline : TraceFile → String → Result ResourceLeaseTimeline
lease_timeline file lease_id = do
  events ← load_events file
  build_resource_lease_timeline events (some lease_id) none

unfoldable pub bundle_timeline : TraceFile → String → Result ResourceLeaseTimeline
bundle_timeline file bundle_id = do
  events ← load_events file
  build_resource_lease_timeline events none (some bundle_id)

unfoldable pub resource_events : TraceFile → String → Result (List ResourceTraceEvent)
resource_events file resource_id = do
  events ← load_events file
  resource_trace_events_for_resource events resource_id
