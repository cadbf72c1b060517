-- ===== src/Trace/Merge.antt =====
-- `merge_resource_trace_events` of syvert/resource_trace_store.py.
use syvert.Common.{
  none, some, List, [], ◌∷◌, ◌++◌, Dict, get, put, Result, ok, trace_persistence, require, ◌>>=◌,
  ◌>>◌,
}
use syvert.Trace.Types.{ResourceTraceEvent, same_event}
use syvert.Trace.Stream.{validate_resource_trace_stream, canonicalize_resource_trace_events}

-- `{event.event_id: event for event in events}`
unfoldable pub events_by_id :
    Dict ResourceTraceEvent → List ResourceTraceEvent → Dict ResourceTraceEvent
events_by_id d [] = d
events_by_id d (e ∷ es) = events_by_id (put e.event_id e d) es

-- The loop over the new events.
unfoldable pub events_to_append :
    Dict ResourceTraceEvent → List ResourceTraceEvent → Result (List ResourceTraceEvent)
events_to_append existing [] = ok []
events_to_append existing (e ∷ es) = elim (get e.event_id existing) [
  | none ↦ (do rest ← events_to_append (put e.event_id e existing) es; ok (e ∷ rest))
  | some current ↦ (do
    require (same_event current e) trace_persistence
    events_to_append existing es)
]

-- The merged stream, and the events of it that are new.
unfoldable pub merge_resource_trace_events :
    List ResourceTraceEvent
    → List ResourceTraceEvent
    → Result (List ResourceTraceEvent × List ResourceTraceEvent)
unfolding events_by_id events_to_append
merge_resource_trace_events existing new = do
  canonical_existing ← validate_resource_trace_stream existing
  canonical_new ← canonicalize_resource_trace_events new
  appended ← events_to_append (events_by_id [] canonical_existing) canonical_new
  merged ← validate_resource_trace_stream (canonical_existing ++ appended)
  ok (merged, appended)
