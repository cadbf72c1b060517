-- ===== src/Service/Faults/Release.antt =====
-- What the loop of `release` calls.
use syvert.Common.{
  suc, String, true, Option-cases, inl, inr, List, Error, ok, contract, state_conflict,
  lease_mismatch, key_error, release_conflict, Dict, get, each, refl, ◌≡◌, sym, ap, Bool-cases,
  >>=-eq-ok, >>-eq-ok, ok_injective,
}
use syvert.Common.Raises.{
  Raises-ok, Raises-err, Raises-bind, Raises-then, Raises-require, raises_rules,
}
use syvert.Json.{Value, text}
use syvert.Lifecycle.Types.{
  ResourceRecord, ResourceLease, ReleaseRequest, ResourceLifecycleSnapshot, by_id,
}
use syvert.Lifecycle.Records.{validate_resource_lease}
use syvert.Lifecycle.Snapshot.{validate_snapshot}
use syvert.Lifecycle.Requests.{
  extract_value, text_or_raise, extract_string, non_empty_string, validate_release_request,
  normalize_release_request, require_task_context_task_id,
}
use syvert.Lifecycle.Transitions.{
  move_record, apply_release_transition, find_lease, require_lease, lease_resource_id,
  releasable_lease_signature,
}
use syvert.Lifecycle.Tracing.{settled_fields, release_event, build_release_resource_trace_events}
use syvert.Store.Disk.{Disk}
use syvert.Service.World.{Env, World}
use syvert.Service.Release.{
  is_same_settlement, ensure_settled_release_trace_truth, repeat_release, ReleasePlan, check_held,
  settled_lease, plan_release, own_lease,
}
use syvert.Service.Faults.{is_ordinary, Ordinary}
use syvert.Service.Faults.Records.{require_non_empty-Ordinary, validate_resource_lease-Ordinary}
use syvert.Service.Faults.Snapshot.{validate_snapshot-Ordinary}
use syvert.Service.Faults.Trace.{load_events-Ordinary}

settled_fields-Ordinary : (lease : ResourceLease) → Ordinary (settled_fields lease)
unfolding settled_fields
settled_fields-Ordinary lease = elim (Option-cases lease.released_at) [
  | inl a ↦ rw (a, settled_fields) (Raises-err contract refl)
  | inr (at, a) ↦ elim (Option-cases lease.target_status_after_release) [
    | inl b ↦ rw (a, b, settled_fields) (Raises-err contract refl)
    | inr (target, b) ↦ elim (Option-cases lease.release_reason) [
      | inl c ↦ rw (a, b, c, settled_fields) (Raises-err contract refl)
      | inr (reason, c) ↦ rw (a, b, c, settled_fields) (Raises-ok _)
    ]
  ]
]

release_event-Ordinary :
    (lease : ResourceLease) (at target reason : String) (d : Dict ResourceRecord) (id : String)
    → Ordinary (release_event lease at target reason d id)
unfolding release_event
release_event-Ordinary lease at target reason d id = elim (Option-cases (get id d)) [
  | inl p ↦ rw (p, release_event) (Raises-err contract refl)
  | inr (r, p) ↦ rw (p, release_event) (Raises-ok _)
]

build_events-Ordinary :
    (current settled : ResourceLease) (d : Dict ResourceRecord)
    → Ordinary (build_release_resource_trace_events current settled d)
unfolding build_release_resource_trace_events
build_events-Ordinary current settled d =
    Raises-bind _ _ (settled_fields-Ordinary settled)
      (λ (at, target, reason). search (raises_rules, release_event-Ordinary))

lease_resource_id-Ordinary :
    (d : Dict ResourceRecord) (id : String) → Ordinary (lease_resource_id d id)
unfolding lease_resource_id
lease_resource_id-Ordinary d id = elim (Option-cases (get id d)) [
  | inl p ↦ rw (p, lease_resource_id) (Raises-err key_error refl)
  | inr (r, p) ↦ rw (p, lease_resource_id) (Raises-ok _)
]

signature-Ordinary :
    (lease : ResourceLease) (d : Dict ResourceRecord)
    → Ordinary (releasable_lease_signature lease d)
unfolding releasable_lease_signature
signature-Ordinary lease d = search (raises_rules, lease_resource_id-Ordinary)

pub move_record-Ordinary :
    (from to : String) (ids : List String) (r : ResourceRecord)
    → Ordinary (move_record from to ids r)
unfolding move_record
move_record-Ordinary from to ids r = search raises_rules

apply_release-Ordinary :
    (rs : List ResourceRecord) (ids : List String) (target : String)
    → Ordinary (apply_release_transition rs ids target)
unfolding apply_release_transition
apply_release-Ordinary rs ids target = search (raises_rules, move_record-Ordinary)

check_held-Ordinary : (d : Dict ResourceRecord) (id : String) → Ordinary (check_held d id)
unfolding check_held
check_held-Ordinary d id = elim (Option-cases (get id d)) [
  | inl p ↦ rw (p, check_held) (Raises-err state_conflict refl)
  | inr (r, p) ↦ rw (p, check_held) (Raises-require _ state_conflict refl)
]

pub plan_release-Ordinary :
    (request : ReleaseRequest) (s : ResourceLifecycleSnapshot) (lease : ResourceLease)
    (now : String)
    → Ordinary (plan_release request s lease now)
unfolding plan_release
plan_release-Ordinary request s lease now =
    search
      (
        raises_rules, check_held-Ordinary, signature-Ordinary, build_events-Ordinary,
        validate_resource_lease-Ordinary, apply_release-Ordinary, validate_snapshot-Ordinary,
      )
      depth 30 fits 3000

pub plan_release-revision :
    (request : ReleaseRequest) (s : ResourceLifecycleSnapshot) (lease : ResourceLease)
    (now : String) (plan : ReleasePlan)
    → plan_release request s lease now ≡ ok plan
    → plan.snapshot.revision ≡ suc s.revision
unfolding plan_release
plan_release-revision request s lease now plan h =
    let (_, h) = >>-eq-ok (each _ lease.resource_ids) _ h in
    let (_, _, h) = >>=-eq-ok (releasable_lease_signature lease (by_id s.resources)) _ h in
    let (_, _, h) =
      >>=-eq-ok
        (build_release_resource_trace_events lease (settled_lease request now lease)
          (by_id s.resources))
        _ h in
    let (_, h) = >>-eq-ok (validate_resource_lease (settled_lease request now lease)) _ h in
    let (_, _, h) =
      >>=-eq-ok
        (apply_release_transition s.resources lease.resource_ids
          request.target_status_after_release)
        _ h in
    let (_, h) = >>-eq-ok (validate_snapshot _) _ h in
    sym (ap (λ (p : ReleasePlan). p.snapshot.revision) (ok_injective h))

ensure_settled-Ordinary :
    (s : ResourceLifecycleSnapshot) (lease : ResourceLease) (d : Disk)
    → Ordinary (ensure_settled_release_trace_truth s lease d)
unfolding ensure_settled_release_trace_truth
ensure_settled-Ordinary s lease d =
    search (raises_rules, build_events-Ordinary, load_events-Ordinary)

pub repeat_release-Ordinary :
    (env : Env) (request : ReleaseRequest) (s : ResourceLifecycleSnapshot) (lease : ResourceLease)
    (w : World)
    → Ordinary (repeat_release env request s lease w).0
unfolding repeat_release
repeat_release-Ordinary env request s lease w =
    elim (Bool-cases (is_same_settlement request lease)) [
      | inr i ↦ rw (i, repeat_release) (Raises-err release_conflict refl)
      | inl i ↦ rw (i, repeat_release) (search (raises_rules, ensure_settled-Ordinary))
    ]

pub require_lease-Ordinary :
    (s : ResourceLifecycleSnapshot) (id : String) → Ordinary (require_lease s id)
unfolding require_lease
require_lease-Ordinary s id = elim (Option-cases (find_lease s.leases id)) [
  | inl p ↦ rw (p, require_lease) (Raises-err lease_mismatch refl)
  | inr (l, p) ↦ rw (p, require_lease) (Raises-ok l)
]

pub own_lease-Ordinary :
    (request : ReleaseRequest) (s : ResourceLifecycleSnapshot) → Ordinary (own_lease request s)
unfolding own_lease
own_lease-Ordinary request s = search (raises_rules, require_lease-Ordinary)

pub text_or_raise-Ordinary :
    (e : Error) (v : Value) → is_ordinary e ≡ true → Ordinary (text_or_raise e v)
unfolding text_or_raise
text_or_raise-Ordinary e (text s) p = Raises-ok s
text_or_raise-Ordinary e _ p = Raises-err e p

extract_string-Ordinary :
    (e : Error) (v : Value) (k : String) → is_ordinary e ≡ true → Ordinary (extract_string e v k)
unfolding extract_string
extract_string-Ordinary e v k p = text_or_raise-Ordinary e (extract_value v k) p

pub non_empty_string-Ordinary :
    (e : Error) (v : Value) (k : String) → is_ordinary e ≡ true → Ordinary (non_empty_string e v k)
unfolding non_empty_string
non_empty_string-Ordinary e v k p =
    Raises-bind _ _ (extract_string-Ordinary e v k p)
      (λ s. Raises-then _ _ (require_non_empty-Ordinary e s p) (Raises-ok s))

validate_release_request-Ordinary : (r : ReleaseRequest) → Ordinary (validate_release_request r)
unfolding validate_release_request
validate_release_request-Ordinary r = search (raises_rules, require_non_empty-Ordinary)

pub normalize_release_request-Ordinary : (v : Value) → Ordinary (normalize_release_request v)
unfolding normalize_release_request
normalize_release_request-Ordinary v =
    search (raises_rules, non_empty_string-Ordinary, validate_release_request-Ordinary) depth 20
      fits 2000

pub require_task_context-Ordinary : (s : String) → Ordinary (require_task_context_task_id s)
unfolding require_task_context_task_id
require_task_context-Ordinary s = search raises_rules
