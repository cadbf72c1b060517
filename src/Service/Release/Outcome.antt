-- ===== src/Service/Release/Outcome.antt =====
-- The snapshot that a release stores, and the lease in it.
use syvert.Common.{
  String, ◌≡◌, refl, sym, ap, ◌∙◌, true, Bool-cases, some, Option-cases, inl, inr, List, [], ◌∷◌,
  arith, ◌==◌, eq_iff, eq_refl, is_some, ok, pass, each, ◌>>=◌, ◌>>◌, >>=-eq-ok, >>-eq-ok,
  ok_injective,
}
use syvert.Lifecycle.Types.{ResourceLease, ReleaseRequest, ResourceLifecycleSnapshot, by_id}
use syvert.Lifecycle.Records.{validate_resource_lease}
use syvert.Lifecycle.Snapshot.{validate_snapshot}
use syvert.Lifecycle.Codec.{canonical_snapshot}
use syvert.Lifecycle.Codec.Canonical.{canonical_snapshot-Canonical, canonical_snapshot-eq_self}
use syvert.Lifecycle.Transitions.{
  find_lease, require_lease, replace_lease, releasable_lease_signature, apply_release_transition,
}
use syvert.Lifecycle.Tracing.{build_release_resource_trace_events}
use syvert.Store.Disk.{Disk}
use syvert.Store.LifecycleStore.{load_snapshot}
use syvert.Store.LifecycleStore.Commit.{load_snapshot-Normal}
use syvert.Service.World.{load_checked}
use syvert.Service.Release.{ReleasePlan, plan_release, settled_lease}

-- The disk holds a valid snapshot in which the request's lease is this one, settled as requested.
pub record Released (request : ReleaseRequest) (lease : ResourceLease) (d : Disk) : Type 0 where
  pub stored : ResourceLifecycleSnapshot
  pub loaded : load_snapshot d.snapshot_file ≡ ok stored
  pub valid : validate_snapshot stored ≡ pass
  pub found : find_lease stored.leases request.lease_id ≡ some lease
  pub settled : is_some lease.released_at ≡ true
  pub target : lease.target_status_after_release ≡ some request.target_status_after_release
  pub reason : lease.release_reason ≡ some request.reason

find_lease-lease_id :
    (ls : List ResourceLease) (id : String) {lease : ResourceLease}
    → find_lease ls id ≡ some lease
    → lease.lease_id ≡ id
unfolding find_lease
find_lease-lease_id [] id h = cc
find_lease-lease_id (l ∷ ls) id {lease} h = elim (Bool-cases (l.lease_id == id)) [
  | inl e ↦ ground (arith, e, h, (eq_iff l.lease_id id).0 e)
  | inr e ↦ find_lease-lease_id ls id {lease = lease} (ground (arith, e, h))
]

-- The settled lease stands where the lease stood.
find_lease-replace_lease :
    (ls : List ResourceLease) (id : String) (lease settled : ResourceLease)
    → find_lease ls id ≡ some lease
    → settled.lease_id ≡ lease.lease_id
    → find_lease (replace_lease lease.lease_id settled ls) id ≡ some settled
unfolding find_lease replace_lease
find_lease-replace_lease [] id lease settled h same = cc
find_lease-replace_lease (l ∷ ls) id lease settled h same =
    let is = find_lease-lease_id (l ∷ ls) id h in
    elim (Bool-cases (l.lease_id == id)) [
      | inl e ↦ ground (arith, e, is, same, eq_refl id)
      | inr e ↦
          ground
            (arith, e, is, find_lease-replace_lease ls id lease settled (ground (arith, e, h)) same)
    ]

pub require_lease-find_lease :
    (s : ResourceLifecycleSnapshot) (id : String) {lease : ResourceLease}
    → require_lease s id ≡ ok lease
    → find_lease s.leases id ≡ some lease
unfolding require_lease
require_lease-find_lease s id h = elim (Option-cases (find_lease s.leases id)) [
  | inl e ↦ absurd (ground (arith, e, h))
  | inr (l, e) ↦ ground (arith, e, h)
]

pub load_checked-stored :
    (d : Disk) {s : ResourceLifecycleSnapshot}
    → load_checked d ≡ ok s
    → (load_snapshot d.snapshot_file ≡ ok s) × (validate_snapshot s ≡ pass)
unfolding load_checked
load_checked-stored d h =
    let (raw, read, h) = >>=-eq-ok (load_snapshot d.snapshot_file) _ h in
    let (canonical, e, h) = >>=-eq-ok (canonical_snapshot raw) _ h in
    let (valid, last) = >>-eq-ok (validate_snapshot canonical) _ h in
    let same = canonical_snapshot-eq_self raw e (load_snapshot-Normal d.snapshot_file read) in
    (read ∙ ap ok (sym same ∙ ok_injective last), rw (← ok_injective last) valid)

pub load_checked-file :
    (d d' : Disk) → d.snapshot_file ≡ d'.snapshot_file → load_checked d ≡ load_checked d'
unfolding load_checked
load_checked-file d d' e =
    ap
      (λ file.
        load_snapshot file >>= λ raw. canonical_snapshot raw >>= λ s. validate_snapshot s >> ok s)
      e

pub plan_release-Released :
    (request : ReleaseRequest) (s : ResourceLifecycleSnapshot) (lease : ResourceLease)
    (now : String) (plan : ReleasePlan) (s' : ResourceLifecycleSnapshot) (d : Disk)
    → find_lease s.leases request.lease_id ≡ some lease
    → plan_release request s lease now ≡ ok plan
    → (canonical_snapshot plan.snapshot ≡ ok s') × (load_snapshot d.snapshot_file ≡ ok s')
    → Released request plan.lease d
unfolding plan_release
plan_release-Released request s lease now plan s' d found h (made, stored) =
    let settled = settled_lease request now lease in
    let (_, h) = >>-eq-ok (each _ lease.resource_ids) _ h in
    let (_, _, h) = >>=-eq-ok (releasable_lease_signature lease (by_id s.resources)) _ h in
    let (_, _, h) =
      >>=-eq-ok (build_release_resource_trace_events lease settled (by_id s.resources)) _ h in
    let (_, h) = >>-eq-ok (validate_resource_lease settled) _ h in
    let (_, _, h) =
      >>=-eq-ok
        (apply_release_transition s.resources lease.resource_ids
          request.target_status_after_release)
        _ h in
    let (_, h) = >>-eq-ok (validate_snapshot _) _ h in
    let canonical = canonical_snapshot-Canonical plan.snapshot made in
    let same = ok_injective h in
    let is : plan.lease ≡ settled = ap (λ (p : ReleasePlan). p.lease) (sym same) in
    record {
      stored = s';
      loaded = stored;
      valid = canonical.valid;
      found =
          ap (λ ls. find_lease ls request.lease_id) canonical.leases
          ∙ ap (λ (p : ReleasePlan). find_lease p.snapshot.leases request.lease_id) (sym same)
          ∙ find_lease-replace_lease s.leases request.lease_id lease settled found refl
          ∙ ap some (sym is);
      settled = ap (λ (l : ResourceLease). is_some l.released_at) is;
      target = ap (λ (l : ResourceLease). l.target_status_after_release) is;
      reason = ap (λ (l : ResourceLease). l.release_reason) is;
    }
