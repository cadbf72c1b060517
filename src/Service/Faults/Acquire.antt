-- ===== src/Service/Faults/Acquire.antt =====
-- What the loop of `acquire` calls.
use syvert.Common.{
  suc, String, Option-cases, inl, inr, List, [], ◌∷◌, ok, contract, unavailable, key_error,
  invalid_request, Dict, get, put, refl, ◌≡◌, sym, ap, >>=-eq-ok, >>-eq-ok, ok_injective,
}
use syvert.Common.Raises.{
  Raises-ok, Raises-err, Raises-bind, Raises-then, Raises-require, Raises-each, Raises-traverse,
  raises_rules,
}
use syvert.Json.{item_list, Value, arr, tuple}
use syvert.Lifecycle.Types.{
  ResourceRecord, ResourceBundle, AcquireRequest, ResourceLifecycleSnapshot, bundle_slot,
}
use syvert.Lifecycle.Snapshot.{validate_snapshot, values}
use syvert.Lifecycle.Requests.{
  text_or_raise, extract_value, slots_of, extract_requested_slots, validate_acquire_request,
  normalize_acquire_request,
}
use syvert.Lifecycle.Selection.{
  active_resource_ids, candidates, take_candidate, check_type, select_slots,
  select_available_resources, slot_id, selected_resources_signature,
}
use syvert.Lifecycle.Transitions.{ids_of, apply_acquire_transition}
use syvert.Lifecycle.Tracing.{
  build_resource_bundle, build_resource_lease, acquired_event, build_acquired_resource_trace_events,
}
use syvert.Service.Acquire.{AcquirePlan, plan_acquire}
use syvert.Service.Faults.{Ordinary}
use syvert.Service.Faults.Records.{
  require_non_empty-Ordinary, validate_resource_lease-Ordinary, validate_requested_slots-Ordinary,
  validate_resource_bundle-Ordinary,
}
use syvert.Service.Faults.Snapshot.{validate_snapshot-Ordinary}
use syvert.Service.Faults.Release.{
  move_record-Ordinary, text_or_raise-Ordinary, non_empty_string-Ordinary,
}

take_candidate-Ordinary :
    (active : List String) (rs : List ResourceRecord) → Ordinary (take_candidate active rs)
unfolding take_candidate
take_candidate-Ordinary active [] = Raises-err unavailable refl
take_candidate-Ordinary active (r ∷ rs) = search raises_rules

select_slots-Ordinary :
    (rs : List ResourceRecord) (active : List String) (k : String) (d : Dict ResourceRecord)
    (slots : List String)
    → Ordinary (select_slots rs active k d slots)
unfolding select_slots
select_slots-Ordinary rs active k d [] = Raises-ok d
select_slots-Ordinary rs active k d (slot ∷ slots) =
    Raises-then _ _ (Raises-require _ key_error refl) (
      Raises-bind _ _ (take_candidate-Ordinary active (candidates slot k rs))
        (λ r. select_slots-Ordinary rs active k (put slot r d) slots))

check_type-Ordinary : (r : ResourceRecord) → Ordinary (check_type r)
unfolding check_type
check_type-Ordinary r = search raises_rules

select-Ordinary :
    (s : ResourceLifecycleSnapshot) (slots : List String) (k : String)
    → Ordinary (select_available_resources s slots k)
unfolding select_available_resources
select-Ordinary s slots k =
    Raises-then _ _ (Raises-each check_type s.resources check_type-Ordinary)
      (select_slots-Ordinary s.resources (active_resource_ids s.leases) k [] slots)

slot_id-Ordinary : (d : Dict ResourceRecord) (slot : String) → Ordinary (slot_id d slot)
unfolding slot_id
slot_id-Ordinary d slot = elim (Option-cases (get slot d)) [
  | inl p ↦ rw (p, slot_id) (Raises-err key_error refl)
  | inr (r, p) ↦ rw (p, slot_id) (Raises-ok _)
]

signature-Ordinary :
    (slots : List String) (d : Dict ResourceRecord)
    → Ordinary (selected_resources_signature slots d)
unfolding selected_resources_signature
signature-Ordinary slots d = search (raises_rules, slot_id-Ordinary)

bundle-Ordinary :
    (request : AcquireRequest) (d : Dict ResourceRecord) (at b l : String)
    → Ordinary (build_resource_bundle request d at b l)
unfolding build_resource_bundle
bundle-Ordinary request d at b l = search (raises_rules, validate_resource_bundle-Ordinary)

lease-Ordinary : (b : ResourceBundle) → Ordinary (build_resource_lease b)
unfolding build_resource_lease
lease-Ordinary b = search (raises_rules, validate_resource_lease-Ordinary)

acquired_event-Ordinary : (b : ResourceBundle) (slot : String) → Ordinary (acquired_event b slot)
unfolding acquired_event
acquired_event-Ordinary b slot = elim (Option-cases (bundle_slot b slot)) [
  | inl p ↦ rw (p, acquired_event) (Raises-err contract refl)
  | inr (r, p) ↦ rw (p, acquired_event) (Raises-ok _)
]

events-Ordinary : (b : ResourceBundle) → Ordinary (build_acquired_resource_trace_events b)
unfolding build_acquired_resource_trace_events
events-Ordinary b = search (raises_rules, acquired_event-Ordinary)

apply_acquire-Ordinary :
    (rs : List ResourceRecord) (ids : List String) → Ordinary (apply_acquire_transition rs ids)
unfolding apply_acquire_transition
apply_acquire-Ordinary rs ids = search (raises_rules, move_record-Ordinary)

pub plan_acquire-Ordinary :
    (request : AcquireRequest) (s : ResourceLifecycleSnapshot) (at b l : String)
    → Ordinary (plan_acquire request s at b l)
unfolding plan_acquire
plan_acquire-Ordinary request s at b l =
    search
      (
        raises_rules, select-Ordinary, signature-Ordinary, bundle-Ordinary, lease-Ordinary,
        events-Ordinary, apply_acquire-Ordinary, validate_snapshot-Ordinary,
      )
      depth 30 fits 3000

pub plan_acquire-revision :
    (request : AcquireRequest) (s : ResourceLifecycleSnapshot) (at b l : String)
    (plan : AcquirePlan)
    → plan_acquire request s at b l ≡ ok plan
    → plan.snapshot.revision ≡ suc s.revision
unfolding plan_acquire
plan_acquire-revision request s at b l plan h =
    let (selected, _, h) =
      >>=-eq-ok (select_available_resources s request.requested_slots request.adapter_key) _ h in
    let (_, _, h) = >>=-eq-ok (selected_resources_signature request.requested_slots selected) _ h in
    let (bundle, _, h) = >>=-eq-ok (build_resource_bundle request selected at b l) _ h in
    let (_, _, h) = >>=-eq-ok (build_resource_lease bundle) _ h in
    let (_, _, h) = >>=-eq-ok (build_acquired_resource_trace_events bundle) _ h in
    let (_, _, h) =
      >>=-eq-ok (apply_acquire_transition s.resources (ids_of (values selected))) _ h in
    let (_, h) = >>-eq-ok (validate_snapshot _) _ h in
    sym (ap (λ (p : AcquirePlan). p.snapshot.revision) (ok_injective h))

slots_of-Ordinary : (v : Value) → Ordinary (slots_of v)
unfolding slots_of
slots_of-Ordinary (arr vs) =
    Raises-traverse (text_or_raise invalid_request) (item_list vs)
      (λ v. text_or_raise-Ordinary invalid_request v refl)
slots_of-Ordinary (tuple vs) =
    Raises-traverse (text_or_raise invalid_request) (item_list vs)
      (λ v. text_or_raise-Ordinary invalid_request v refl)
slots_of-Ordinary _ = Raises-err invalid_request refl

extract_requested_slots-Ordinary : (v : Value) → Ordinary (extract_requested_slots v)
unfolding extract_requested_slots
extract_requested_slots-Ordinary v = slots_of-Ordinary (extract_value v "requested_slots")

validate_acquire_request-Ordinary : (r : AcquireRequest) → Ordinary (validate_acquire_request r)
unfolding validate_acquire_request
validate_acquire_request-Ordinary r =
    search (raises_rules, require_non_empty-Ordinary, validate_requested_slots-Ordinary)

pub normalize_acquire_request-Ordinary : (v : Value) → Ordinary (normalize_acquire_request v)
unfolding normalize_acquire_request
normalize_acquire_request-Ordinary v =
    search
      (
        raises_rules, non_empty_string-Ordinary, extract_requested_slots-Ordinary,
        validate_acquire_request-Ordinary,
      )
      depth 20 fits 2000
