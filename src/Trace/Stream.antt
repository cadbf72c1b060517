-- ===== src/Trace/Stream.antt =====
-- A stream of events of syvert/resource_trace.py: order, duplicates, and what each lease, bundle and
-- resource of a lease may go through.
pub mod Bindings
pub mod Timelines
pub mod Owners
use syvert.Common.{
  ℕ, String, Bool, true, false, not, ◌&&◌, ◌||◌, Option, none, some, List, [], ◌∷◌, map, ◌==◌, ltb,
  eqb, text_le, is_some, Dict, get, put, Result, ok, err, trace_contract, Check, pass, require,
  forbid, traverse, ◌>>=◌, ◌>>◌, sort_by, keep, is_empty,
}
use syvert.Time.{parse_trace_time}
use syvert.Trace.Types.{ResourceTraceEvent, TaskResourceUsageLog, same_event}
use syvert.Trace.Events.{validate_resource_trace_event}
use Bindings.{StreamState, empty_stream, step_event}

-- an event with the instant by which it is sorted
pub record Stamped : Type 0 where
  pub time : ℕ
  pub event : ResourceTraceEvent

unfoldable pub stamp : ResourceTraceEvent → Result Stamped
stamp e = do
  validate_resource_trace_event e
  time ← parse_trace_time e.occurred_at
  ok (record { time = time; event = e })

-- `(occurred_at, event_id)`, compared as a tuple
abbrev pub stamped_le : Stamped → Stamped → Bool
stamped_le a b =
    ltb a.time b.time || (eqb a.time b.time && text_le a.event.event_id b.event.event_id)

unfoldable pub sort_resource_trace_events :
    List ResourceTraceEvent → Result (List ResourceTraceEvent)
unfolding stamp
sort_resource_trace_events events = do
  stamped ← traverse stamp events
  ok (map (λ s. s.event) (sort_by stamped_le stamped))

-- The loop of `canonicalize_resource_trace_events`.
unfoldable pub drop_repeats :
    Dict ResourceTraceEvent → List ResourceTraceEvent → Result (List ResourceTraceEvent)
drop_repeats seen [] = ok []
drop_repeats seen (e ∷ es) = elim (get e.event_id seen) [
  | none ↦ (do rest ← drop_repeats (put e.event_id e seen) es; ok (e ∷ rest))
  | some existing ↦ (do require (same_event existing e) trace_contract; drop_repeats seen es)
]

unfoldable pub canonicalize_resource_trace_events :
    List ResourceTraceEvent → Result (List ResourceTraceEvent)
canonicalize_resource_trace_events events = do
  sorted ← sort_resource_trace_events events
  drop_repeats [] sorted

unfoldable pub run_events : StreamState → List ResourceTraceEvent → Result StreamState
run_events s [] = ok s
run_events s (e ∷ es) = do s' ← step_event s e; run_events s' es

unfoldable pub validate_resource_trace_stream :
    List ResourceTraceEvent → Result (List ResourceTraceEvent)
validate_resource_trace_stream events = do
  canonical ← canonicalize_resource_trace_events events
  s ← run_events empty_stream canonical
  ok canonical

unfoldable pub build_task_resource_usage_log :
    List ResourceTraceEvent → String → Result TaskResourceUsageLog
unfolding keep
build_task_resource_usage_log events task_id = do
  require (not (is_empty task_id)) trace_contract
  canonical ← validate_resource_trace_stream events
  ok (record { task_id = task_id; events = keep (λ e. e.task_id == task_id) canonical })

unfoldable pub resource_trace_events_for_resource :
    List ResourceTraceEvent → String → Result (List ResourceTraceEvent)
unfolding keep
resource_trace_events_for_resource events resource_id = do
  require (not (is_empty resource_id)) trace_contract
  canonical ← validate_resource_trace_stream events
  ok (keep (λ e. e.resource_id == resource_id) canonical)
