-- ===== src/Tests/Witnesses.antt =====
-- Each theorem on snapshots, transitions, files and traces, applied to the sample data.
use syvert.Common.{◌≡◌, refl, [], ◌∷◌, map, Memᴰ, ◌==◌, Result, ok, err, has, count, ◌≤◌}
use syvert.Json.{Value, null, arr, tuple}
use syvert.Trace.Stream.Bindings.{key_of}
use syvert.Trace.Stream.Timelines.{IsTimeline, events_of, validate_resource_trace_stream-IsTimeline}
use syvert.Trace.Stream.Owners.{
  validate_resource_trace_stream-same_lease, validate_resource_trace_stream-same_bundle,
}
use syvert.Lifecycle.Types.{ResourceLifecycleSnapshot, in_use, invalid}
use syvert.Lifecycle.Selection.{active_resource_ids}
use syvert.Lifecycle.Selection.Chosen.{Chosen, select_available_resources-Chosen}
use syvert.Lifecycle.Codec.{
  resource_lease_to_dict, resource_lease_from_dict, snapshot_to_dict, snapshot_from_dict,
  canonical_snapshot,
}
use syvert.Lifecycle.Codec.RoundTrip.{resource_lease-round_trip, snapshot-round_trip}
use syvert.Lifecycle.Codec.Canonical.{Canonical, canonical_snapshot-Canonical}
use syvert.Lifecycle.Snapshot.Holding.{active_resource_ids-AtMostOnce}
use syvert.Lifecycle.Snapshot.Resources.{in_use-eq-has_active}
use syvert.Lifecycle.Snapshot.Invalidation.{was_invalidated-invalid}
use syvert.Lifecycle.Transitions.{apply_release_transition}
use syvert.Lifecycle.Transitions.Moves.{
  mark, apply_acquire_transition-mark, apply_release-apply_acquire,
}
use syvert.Tests.Program.{program}
use syvert.Tests.Samples.{account, proxy, hosts}
use syvert.Tests.Derived.{
  seeded_snapshot, held_snapshot, given_back_snapshot, given_back_events, first_event, second_event,
  settled, held_snapshot-valid, given_back_snapshot-valid, given_back_events-valid,
}

active_resource_ids-AtMostOnce_example :
    count "account-1" (active_resource_ids held_snapshot.leases) ≤ 1
active_resource_ids-AtMostOnce_example =
    active_resource_ids-AtMostOnce held_snapshot held_snapshot-valid "account-1"

in_use-eq-has_active_example :
    (in_use == in_use) ≡ has "account-1" (active_resource_ids held_snapshot.leases)
unfolding program
in_use-eq-has_active_example =
    in_use-eq-has_active held_snapshot (record account { status = in_use }) held_snapshot-valid
      (Memᴰ.head refl)

was_invalidated-invalid_example : (record account { status = invalid }).status ≡ invalid
unfolding program
was_invalidated-invalid_example =
    was_invalidated-invalid given_back_snapshot (record account { status = invalid })
      given_back_snapshot-valid (Memᴰ.head refl) refl

apply_acquire_transition-mark_example :
    (record account { status = in_use }) ∷ proxy ∷ []
    ≡ map (mark in_use ("account-1" ∷ [])) (account ∷ proxy ∷ [])
unfolding program
apply_acquire_transition-mark_example =
    apply_acquire_transition-mark (account ∷ proxy ∷ []) ("account-1" ∷ []) refl

apply_release-apply_acquire_example :
    apply_release_transition
      (record account { status = in_use } ∷ proxy ∷ [])
      ("account-1" ∷ [])
      invalid
    ≡ ok (map (mark invalid ("account-1" ∷ [])) (account ∷ proxy ∷ []))
unfolding program
apply_release-apply_acquire_example =
    apply_release-apply_acquire (account ∷ proxy ∷ []) ("account-1" ∷ []) refl invalid

to_value : Result Value → Value
to_value (ok v) = v
to_value (err e) = null

resource_lease-round_trip_example :
    resource_lease_from_dict (to_value (resource_lease_to_dict settled)) ≡ ok settled
unfolding program to_value
resource_lease-round_trip_example = resource_lease-round_trip settled refl

-- A snapshot as a caller may hold it, with a tuple in a material, and its canonical form.
abbrev in_memory : ResourceLifecycleSnapshot
in_memory = record given_back_snapshot { resources = hosts tuple ∷ []; leases = [] }

abbrev canonical : ResourceLifecycleSnapshot
canonical = record given_back_snapshot { resources = hosts arr ∷ []; leases = [] }

snapshot-round_trip_example :
    (s' : ResourceLifecycleSnapshot) × (canonical_snapshot in_memory ≡ ok s')
    × (snapshot_from_dict (to_value (snapshot_to_dict in_memory)) ≡ ok s')
unfolding program to_value
snapshot-round_trip_example = snapshot-round_trip in_memory refl

canonical_snapshot-Canonical_example : Canonical in_memory canonical
unfolding program
canonical_snapshot-Canonical_example = canonical_snapshot-Canonical in_memory refl

validate_resource_trace_stream-IsTimeline_example :
    IsTimeline (events_of (key_of (first_event given_back_events)) given_back_events)
validate_resource_trace_stream-IsTimeline_example =
    validate_resource_trace_stream-IsTimeline given_back_events given_back_events
      given_back_events-valid (key_of (first_event given_back_events))

validate_resource_trace_stream-same_lease_example :
    ((first_event given_back_events).task_id ≡ (second_event given_back_events).task_id)
    × ((first_event given_back_events).bundle_id ≡ (second_event given_back_events).bundle_id)
    × ((first_event given_back_events).adapter_key ≡ (second_event given_back_events).adapter_key)
    × ((first_event given_back_events).capability ≡ (second_event given_back_events).capability)
unfolding program
validate_resource_trace_stream-same_lease_example =
    validate_resource_trace_stream-same_lease given_back_events given_back_events
      given_back_events-valid (first_event given_back_events) (second_event given_back_events)
      (Memᴰ.head refl) (Memᴰ.tail (Memᴰ.head refl)) refl

validate_resource_trace_stream-same_bundle_example :
    (first_event given_back_events).lease_id ≡ (second_event given_back_events).lease_id
unfolding program
validate_resource_trace_stream-same_bundle_example =
    validate_resource_trace_stream-same_bundle given_back_events given_back_events
      given_back_events-valid (first_event given_back_events) (second_event given_back_events)
      (Memᴰ.head refl) (Memᴰ.tail (Memᴰ.head refl)) refl

select_available_resources-Chosen_example :
    Chosen seeded_snapshot.resources (active_resource_ids seeded_snapshot.leases) "xhs" "account" (
      ("account", record account { status = in_use })
      ∷ ("proxy", record proxy { status = in_use })
      ∷ [])
unfolding program
select_available_resources-Chosen_example =
    select_available_resources-Chosen seeded_snapshot ("account" ∷ "proxy" ∷ []) "xhs" "account"
      (("account", record account { status = in_use })
        ∷ ("proxy", record proxy { status = in_use })
        ∷ [])
      refl refl
