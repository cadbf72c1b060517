-- ===== src/Service/Faults/Trace.antt =====
-- The validation of a stream of events, and the commit of a snapshot with its events.
use syvert.Common.{
  String, Bool, Option-cases, inl, inr, List, [], ◌∷◌, Result, ok, err, trace_contract,
  trace_persistence, Dict, get, put, refl, Bool-cases, Result-cases,
}
use syvert.Common.Raises.{
  Raises-ok, Raises-err, Raises-bind, Raises-then, Raises-require, raises_rules,
}
use syvert.Trace.Types.{ResourceTraceEvent, allowed_transitions}
use syvert.Trace.Events.{
  require_text, check_transition, validate_resource_trace_event, resource_trace_event_to_dict,
}
use syvert.Trace.Stream.Bindings.{
  TimelineKey, Timelines, timeline, StreamState, bind_once, bind_type, bind_event, advance_timeline,
  step_event,
}
use syvert.Trace.Stream.{
  stamp, sort_resource_trace_events, drop_repeats, canonicalize_resource_trace_events, run_events,
  validate_resource_trace_stream,
}
use syvert.Trace.Merge.{events_to_append, merge_resource_trace_events}
use syvert.Store.Disk.{TraceFile}
use syvert.Store.TraceStore.{as_persistence, read_events, load_events, encode_events, write_events}
use syvert.Service.Faults.{Ordinary}
use syvert.Service.Faults.Records.{parse_trace_time-Ordinary}

require_text-Ordinary : (s : String) → Ordinary (require_text s)
unfolding require_text
require_text-Ordinary s = search raises_rules

check_transition-Ordinary : (e : ResourceTraceEvent) → Ordinary (check_transition e)
unfolding check_transition
check_transition-Ordinary e = elim (Option-cases (get e.event_type allowed_transitions)) [
  | inl p ↦ rw (p, check_transition) (Raises-err trace_contract refl)
  | inr (_, p) ↦ rw (p, check_transition) (Raises-require _ trace_contract refl)
]

validate_event-Ordinary : (e : ResourceTraceEvent) → Ordinary (validate_resource_trace_event e)
unfolding validate_resource_trace_event
validate_event-Ordinary e =
    search
      (raises_rules, require_text-Ordinary, check_transition-Ordinary, parse_trace_time-Ordinary)
      depth 40 fits 4000

stamp-Ordinary : (e : ResourceTraceEvent) → Ordinary (stamp e)
unfolding stamp
stamp-Ordinary e = search (raises_rules, validate_event-Ordinary, parse_trace_time-Ordinary)

sort-Ordinary : (es : List ResourceTraceEvent) → Ordinary (sort_resource_trace_events es)
unfolding sort_resource_trace_events
sort-Ordinary es = search (raises_rules, stamp-Ordinary)

drop_repeats-Ordinary :
    (d : Dict ResourceTraceEvent) (es : List ResourceTraceEvent) → Ordinary (drop_repeats d es)
unfolding drop_repeats
drop_repeats-Ordinary d [] = Raises-ok _
drop_repeats-Ordinary d (e ∷ es) = elim (Option-cases (get e.event_id d)) [
  | inl p ↦
      rw (p, drop_repeats)
        (Raises-bind _ _ (drop_repeats-Ordinary (put e.event_id e d) es) (λ rest. Raises-ok _))
  | inr (x, p) ↦
      rw (p, drop_repeats)
        (Raises-then _ _ (Raises-require _ trace_contract refl) (drop_repeats-Ordinary d es))
]

canonicalize-Ordinary :
    (es : List ResourceTraceEvent) → Ordinary (canonicalize_resource_trace_events es)
unfolding canonicalize_resource_trace_events
canonicalize-Ordinary es = search (raises_rules, sort-Ordinary, drop_repeats-Ordinary)

bind_once-Ordinary : (k v : String) (d : Dict String) → Ordinary (bind_once k v d)
unfolding bind_once
bind_once-Ordinary k v d = elim (Option-cases (get k d)) [
  | inl p ↦ rw (p, bind_once) (Raises-ok _)
  | inr (x, p) ↦ rw (p, bind_once) (search raises_rules)
]

bind_type-Ordinary :
    (k : TimelineKey) (v : String) (d : Timelines String) → Ordinary (bind_type k v d)
unfolding bind_type
bind_type-Ordinary k v d = elim (Option-cases (timeline k d)) [
  | inl p ↦ rw (p, bind_type) (Raises-ok _)
  | inr (x, p) ↦ rw (p, bind_type) (search raises_rules)
]

bind_event-Ordinary : (s : StreamState) (e : ResourceTraceEvent) → Ordinary (bind_event s e)
unfolding bind_event
bind_event-Ordinary s e =
    search (raises_rules, bind_once-Ordinary, bind_type-Ordinary) depth 40 fits 4000

advance_timeline-Ordinary :
    (s : StreamState) (e : ResourceTraceEvent) → Ordinary (advance_timeline s e)
unfolding advance_timeline
advance_timeline-Ordinary s e = search raises_rules

step_event-Ordinary : (s : StreamState) (e : ResourceTraceEvent) → Ordinary (step_event s e)
unfolding step_event
step_event-Ordinary s e = search (raises_rules, bind_event-Ordinary, advance_timeline-Ordinary)

run_events-Ordinary : (s : StreamState) (es : List ResourceTraceEvent) → Ordinary (run_events s es)
unfolding run_events
run_events-Ordinary s [] = Raises-ok _
run_events-Ordinary s (e ∷ es) =
    Raises-bind _ _ (step_event-Ordinary s e) (λ s'. run_events-Ordinary s' es)

stream-Ordinary : (es : List ResourceTraceEvent) → Ordinary (validate_resource_trace_stream es)
unfolding validate_resource_trace_stream
stream-Ordinary es = search (raises_rules, canonicalize-Ordinary, run_events-Ordinary)

events_to_append-Ordinary :
    (d : Dict ResourceTraceEvent) (es : List ResourceTraceEvent) → Ordinary (events_to_append d es)
unfolding events_to_append
events_to_append-Ordinary d [] = Raises-ok _
events_to_append-Ordinary d (e ∷ es) = elim (Option-cases (get e.event_id d)) [
  | inl p ↦
      rw (p, events_to_append)
        (Raises-bind _ _ (events_to_append-Ordinary (put e.event_id e d) es) (λ rest. Raises-ok _))
  | inr (x, p) ↦
      rw (p, events_to_append)
        (Raises-then _ _ (Raises-require _ trace_persistence refl) (events_to_append-Ordinary d es))
]

pub merge-Ordinary :
    (old new : List ResourceTraceEvent) → Ordinary (merge_resource_trace_events old new)
unfolding merge_resource_trace_events
merge-Ordinary old new =
    search (raises_rules, stream-Ordinary, canonicalize-Ordinary, events_to_append-Ordinary) depth
      20 fits 2000

as_persistence-Ordinary {ℓ} : {A : Type ℓ} (m : Result A) → Ordinary (as_persistence m)
unfolding as_persistence
as_persistence-Ordinary (ok a) = Raises-ok _
as_persistence-Ordinary (err e) = Raises-err trace_persistence refl

pub load_events-Ordinary : (f : TraceFile) → Ordinary (load_events f)
unfolding load_events
load_events-Ordinary TraceFile.absent = Raises-ok _
load_events-Ordinary TraceFile.unreadable = Raises-err trace_persistence refl
load_events-Ordinary (TraceFile.lines vs) = as_persistence-Ordinary (read_events vs)

to_dict-Ordinary : (e : ResourceTraceEvent) → Ordinary (resource_trace_event_to_dict e)
unfolding resource_trace_event_to_dict
to_dict-Ordinary e = search (raises_rules, validate_event-Ordinary)

encode_events-Ordinary : (es : List ResourceTraceEvent) → Ordinary (encode_events es)
unfolding encode_events
encode_events-Ordinary es = search (raises_rules, stream-Ordinary, to_dict-Ordinary)

pub write_events-Ordinary :
    (writes : Bool) (es : List ResourceTraceEvent) (f : TraceFile)
    → Ordinary (write_events writes es f).0
unfolding write_events
write_events-Ordinary writes es f = elim (Result-cases (encode_events es)) [
  | inr (e, p) ↦ rw (p, write_events) (Raises-err e ((encode_events-Ordinary es).raised e p))
  | inl (x, p) ↦ elim (Bool-cases writes) [
    | inl q ↦ rw (p, write_events) (rw (q, write_events) (Raises-ok _))
    | inr q ↦ rw (p, write_events) (rw (q, write_events) (Raises-err trace_persistence refl))
  ]
]
