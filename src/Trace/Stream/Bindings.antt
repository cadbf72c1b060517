-- ===== src/Trace/Stream/Bindings.antt =====
-- One round of the loop of `validate_resource_trace_stream`, and the dicts that it fills.
use syvert.Common.{
  String, Bool, true, ◌&&◌, Option, none, some, List, [], ◌∷◌, ◌==◌, is_some, Dict, get, put,
  Result, ok, trace_contract, require, forbid, ◌>>=◌, ◌>>◌, if◌then◌else◌,
}
use syvert.Trace.Types.{ResourceTraceEvent, acquired_type}

-- A dict keyed by `(lease_id, resource_id)`.
pub record TimelineKey : Type 0 where
  pub lease_id : String
  pub resource_id : String

abbrev pub Timelines : Type 0 → Type 0
Timelines V = List (TimelineKey × V)

abbrev pub same_key : TimelineKey → TimelineKey → Bool
same_key a b = a.lease_id == b.lease_id && a.resource_id == b.resource_id

unfoldable pub timeline : {V : Type 0} → TimelineKey → Timelines V → Option V
timeline k [] = none
timeline k ((j, v) ∷ d) = if same_key j k then some v else timeline k d

-- What was there under the key stays behind the new entry, where nothing finds it.
unfoldable pub set_timeline : {V : Type 0} → TimelineKey → V → Timelines V → Timelines V
set_timeline k v d = (k, v) ∷ d

pub record StreamState : Type 0 where
  pub lease_task_ids : Dict String
  pub bundle_task_ids : Dict String
  pub lease_bundle_ids : Dict String
  pub bundle_lease_ids : Dict String
  pub lease_adapter_keys : Dict String
  pub lease_capabilities : Dict String
  pub bundle_adapter_keys : Dict String
  pub bundle_capabilities : Dict String
  -- entries that hold `None` are left out: `get` answers the same
  pub closeouts : Timelines String
  pub has_acquired : Timelines Bool
  pub types : Timelines String

abbrev pub empty_stream : StreamState
empty_stream = record {
  lease_task_ids = [];
  bundle_task_ids = [];
  lease_bundle_ids = [];
  bundle_lease_ids = [];
  lease_adapter_keys = [];
  lease_capabilities = [];
  bundle_adapter_keys = [];
  bundle_capabilities = [];
  closeouts = [];
  has_acquired = [];
  types = [];
}

-- `existing = d.get(k)`; raise if it is there and not `v`; `d[k] = v`
unfoldable pub bind_once : String → String → Dict String → Result (Dict String)
bind_once k v d = elim (get k d) [
  | none ↦ ok (put k v d)
  | some existing ↦ (do require (existing == v) trace_contract; ok (put k v d))
]

unfoldable pub bind_type : TimelineKey → String → Timelines String → Result (Timelines String)
bind_type k v d = elim (timeline k d) [
  | none ↦ ok (set_timeline k v d)
  | some existing ↦ (do require (existing == v) trace_contract; ok (set_timeline k v d))
]

abbrev pub key_of : ResourceTraceEvent → TimelineKey
key_of e = record { lease_id = e.lease_id; resource_id = e.resource_id }

abbrev pub was_acquired : TimelineKey → StreamState → Bool
was_acquired k s = is_some (timeline k s.has_acquired)

-- The end of a round: one `acquired` first, and after it one closeout at most.
unfoldable pub advance_timeline : StreamState → ResourceTraceEvent → Result StreamState
unfolding timeline set_timeline
advance_timeline s e =
    let k = key_of e in
    if e.event_type == acquired_type
    then (do
      forbid (was_acquired k s) trace_contract
      ok (record s { has_acquired = set_timeline k true s.has_acquired }))
    else (do
      require (was_acquired k s) trace_contract
      forbid (is_some (timeline k s.closeouts)) trace_contract
      ok (record s { closeouts = set_timeline k e.event_type s.closeouts }))

unfoldable pub bind_event : StreamState → ResourceTraceEvent → Result StreamState
unfolding bind_once bind_type
bind_event s e = do
  lease_task_ids ← bind_once e.lease_id e.task_id s.lease_task_ids
  bundle_task_ids ← bind_once e.bundle_id e.task_id s.bundle_task_ids
  lease_bundle_ids ← bind_once e.lease_id e.bundle_id s.lease_bundle_ids
  bundle_lease_ids ← bind_once e.bundle_id e.lease_id s.bundle_lease_ids
  lease_adapter_keys ← bind_once e.lease_id e.adapter_key s.lease_adapter_keys
  lease_capabilities ← bind_once e.lease_id e.capability s.lease_capabilities
  bundle_adapter_keys ← bind_once e.bundle_id e.adapter_key s.bundle_adapter_keys
  bundle_capabilities ← bind_once e.bundle_id e.capability s.bundle_capabilities
  types ← bind_type (key_of e) e.resource_type s.types
  ok (record s {
    lease_task_ids = lease_task_ids;
    bundle_task_ids = bundle_task_ids;
    lease_bundle_ids = lease_bundle_ids;
    bundle_lease_ids = bundle_lease_ids;
    lease_adapter_keys = lease_adapter_keys;
    lease_capabilities = lease_capabilities;
    bundle_adapter_keys = bundle_adapter_keys;
    bundle_capabilities = bundle_capabilities;
    types = types;
  })

unfoldable pub step_event : StreamState → ResourceTraceEvent → Result StreamState
unfolding bind_event advance_timeline
step_event s e = do s' ← bind_event s e; advance_timeline s' e
