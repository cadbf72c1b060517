-- ===== src/Trace/Types.antt =====
-- The data classes and constants of syvert/resource_trace.py.
use Prim.Native.String.{◌++◌ as text_append}
use syvert.Common.{String, Bool, ◌&&◌, Option, List, [], ◌∷◌, ◌==◌, Dict}

abbrev pub acquired_type : String
acquired_type = "acquired"

abbrev pub released_type : String
released_type = "released"

abbrev pub invalidated_type : String
invalidated_type = "invalidated"

abbrev pub event_types : List String
event_types = acquired_type ∷ released_type ∷ invalidated_type ∷ []

abbrev pub trace_resource_types : List String
trace_resource_types = "account" ∷ "proxy" ∷ []

abbrev pub trace_statuses : List String
trace_statuses = "AVAILABLE" ∷ "IN_USE" ∷ "INVALID" ∷ []

-- RESOURCE_TRACE_ALLOWED_TRANSITIONS
abbrev pub allowed_transitions : Dict (String × String)
allowed_transitions =
    (acquired_type, ("AVAILABLE", "IN_USE"))
    ∷ (released_type, ("IN_USE", "AVAILABLE"))
    ∷ (invalidated_type, ("IN_USE", "INVALID"))
    ∷ []

pub record ResourceTraceEvent : Type 0 where
  pub event_id : String
  pub task_id : String
  pub lease_id : String
  pub bundle_id : String
  pub resource_id : String
  pub resource_type : String
  pub adapter_key : String
  pub capability : String
  pub event_type : String
  pub from_status : String
  pub to_status : String
  pub occurred_at : String
  pub reason : String

pub record TaskResourceUsageLog : Type 0 where
  pub task_id : String
  pub events : List ResourceTraceEvent

pub record ResourceTimeline : Type 0 where
  pub resource_id : String
  pub resource_type : String
  pub acquired_at : String
  pub released_at : Option String
  pub invalidated_at : Option String
  pub events : List ResourceTraceEvent

pub record ResourceLeaseTimeline : Type 0 where
  pub lease_id : String
  pub bundle_id : String
  pub resource_timelines : List ResourceTimeline

unfoldable pub build_resource_trace_event_id : String → String → String → String
build_resource_trace_event_id event_type lease_id resource_id =
    text_append event_type (text_append ":" (text_append lease_id (text_append ":" resource_id)))

-- `==` of the frozen data class
unfoldable pub same_event : ResourceTraceEvent → ResourceTraceEvent → Bool
same_event a b =
    a.event_id == b.event_id
    && (a.task_id == b.task_id
        && (a.lease_id == b.lease_id
            && (a.bundle_id == b.bundle_id
                && (a.resource_id == b.resource_id
                    && (a.resource_type == b.resource_type
                        && (a.adapter_key == b.adapter_key
                            && (a.capability == b.capability
                                && (a.event_type == b.event_type
                                    && (a.from_status == b.from_status
                                        && (a.to_status == b.to_status
                                            && (a.occurred_at == b.occurred_at
                                                && a.reason == b.reason)))))))))))
