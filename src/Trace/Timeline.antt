-- ===== src/Trace/Timeline.antt =====
-- `build_resource_lease_timeline` of syvert/resource_trace.py.
use syvert.Common.{
  String, Bool, true, false, not, ◌&&◌, ◌||◌, Option, none, some, List, [], ◌∷◌, ◌++◌, ◌==◌,
  text_le, is_empty, is_some, Dict, get, put, Result, ok, err, trace_contract, require, forbid,
  traverse, each, ◌>>=◌, ◌>>◌, sort_by, keep,
}
use syvert.Trace.Types.{
  ResourceTraceEvent, ResourceTimeline, ResourceLeaseTimeline, acquired_type, released_type,
  invalidated_type,
}
use syvert.Trace.Stream.{sort_resource_trace_events, validate_resource_trace_stream}

abbrev matches : Option String → String → Bool
matches none s = true
matches (some t) s = s == t

abbrev is_given : Option String → Bool
is_given none = false
is_given (some t) = not (is_empty t)

-- `grouped[event.resource_id].append(event)` over the events
group_events :
    Dict (List ResourceTraceEvent) → List ResourceTraceEvent → Dict (List ResourceTraceEvent)
group_events d [] = d
group_events d (e ∷ es) =
    group_events
      (elim (get e.resource_id d) [
        | none ↦ put e.resource_id (e ∷ []) d
        | some group ↦ put e.resource_id (group ++ e ∷ []) d
      ])
      es

of_type : String → List ResourceTraceEvent → List ResourceTraceEvent
unfolding keep
of_type event_type = keep (λ e. e.event_type == event_type)

abbrev first_time : List ResourceTraceEvent → Option String
first_time [] = none
first_time (e ∷ es) = some e.occurred_at

timeline_of : String → List ResourceTraceEvent → List ResourceTraceEvent → Result ResourceTimeline
unfolding of_type
timeline_of id (first ∷ events) (acquired ∷ []) = do
  let sorted = first ∷ events
  let released = first_time (of_type released_type sorted)
  let invalidated = first_time (of_type invalidated_type sorted)
  forbid (is_some released && is_some invalidated) trace_contract
  ok (record {
    resource_id = id;
    resource_type = first.resource_type;
    acquired_at = acquired.occurred_at;
    released_at = released;
    invalidated_at = invalidated;
    events = sorted;
  })
timeline_of id _ _ = err trace_contract

-- One round of the loop over the groups.
unfoldable pub build_resource_timeline : String × List ResourceTraceEvent → Result ResourceTimeline
unfolding timeline_of of_type
build_resource_timeline (id, events) = do
  sorted ← sort_resource_trace_events events
  timeline_of id sorted (of_type acquired_type sorted)

resolve_timeline : List ResourceTraceEvent → Result ResourceLeaseTimeline
unfolding build_resource_timeline group_events sort_by traverse each
resolve_timeline [] = err trace_contract
resolve_timeline (first ∷ events) = do
  each
      (λ e. require (e.lease_id == first.lease_id && e.bundle_id == first.bundle_id) trace_contract)
      (first ∷ events)
  timelines ←
      traverse build_resource_timeline
        (sort_by (λ a b. text_le a.0 b.0) (group_events [] (first ∷ events)))
  ok (record {
    lease_id = first.lease_id;
    bundle_id = first.bundle_id;
    resource_timelines = timelines;
  })

unfoldable pub build_resource_lease_timeline :
    List ResourceTraceEvent → Option String → Option String → Result ResourceLeaseTimeline
unfolding resolve_timeline keep
build_resource_lease_timeline events lease_id bundle_id = do
  require (is_given lease_id || is_given bundle_id) trace_contract
  canonical ← validate_resource_trace_stream events
  resolve_timeline
      (keep (λ e. matches lease_id e.lease_id && matches bundle_id e.bundle_id) canonical)
