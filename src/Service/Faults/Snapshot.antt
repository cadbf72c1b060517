-- ===== src/Service/Faults/Snapshot.antt =====
-- The validators of a snapshot.
use syvert.Common.{
  ℕ, suc, String, Bool, not, Option, none, some, Option-cases, inl, inr, List, [], ◌∷◌, Result, ok,
  err, contract, state_conflict, Dict, get, put, is_some, refl,
}
use syvert.Common.Raises.{
  Raises-ok, Raises-err, Raises-bind, Raises-then, Raises-require, Raises-forbid, raises_rules,
}
use syvert.Lifecycle.Types.{ResourceRecord, ResourceLease, ResourceLifecycleSnapshot}
use syvert.Lifecycle.Snapshot.LeaseScan.{
  Marker, Span, Scan, claim, scan_release, scan_lease, scan_leases,
}
use syvert.Lifecycle.Snapshot.{
  scan_resources, check_intervals, after_end, latest_agrees, stays_invalid, check_resource,
  check_active, validate_snapshot,
}
use syvert.Lifecycle.Codec.{canonical_snapshot}
use syvert.Store.Disk.{SnapshotFile, Disk}
use syvert.Lifecycle.Codec.{snapshot_from_dict}
use syvert.Store.LifecycleStore.{as_conflict, load_snapshot}
use syvert.Service.World.{load_checked}
use syvert.Service.Faults.{Ordinary}
use syvert.Service.Faults.Records.{
  parse_lifecycle_time-Ordinary, validate_resource_record-Ordinary,
  validate_resource_lease-Ordinary, canonical_resource_record-Ordinary,
  coerce_resource_lease-Ordinary,
}

claim-Ordinary : (active ids : List String) → Ordinary (claim active ids)
unfolding claim
claim-Ordinary active [] = Raises-ok _
claim-Ordinary active (id ∷ ids) =
    Raises-then _ _ (Raises-forbid _ contract refl) (claim-Ordinary (id ∷ active) ids)

scan_release-Ordinary :
    (index : ℕ) (lease : ResourceLease) (o : Option String) (scan : Scan)
    → Ordinary (scan_release index lease o scan)
unfolding scan_release
scan_release-Ordinary index lease none scan = search (raises_rules, claim-Ordinary)
scan_release-Ordinary index lease (some at) scan =
    Raises-bind _ _ (parse_lifecycle_time-Ordinary at) (λ time.
      elim (Option-cases lease.target_status_after_release) [
        | inl e ↦ rw e (Raises-err contract refl)
        | inr (target, e) ↦ rw e (Raises-ok _)
      ])

scan_lease-Ordinary :
    (resources : Dict ResourceRecord) (index : ℕ) (scan : Scan) (lease : ResourceLease)
    → Ordinary (scan_lease resources index scan lease)
unfolding scan_lease
scan_lease-Ordinary resources index scan lease =
    search
      (
        raises_rules, validate_resource_lease-Ordinary, parse_lifecycle_time-Ordinary,
        scan_release-Ordinary,
      )
      depth 20 fits 2000

scan_leases-Ordinary :
    (resources : Dict ResourceRecord) (index : ℕ) (scan : Scan) (leases : List ResourceLease)
    → Ordinary (scan_leases resources index scan leases)
unfolding scan_leases
scan_leases-Ordinary resources index scan [] = Raises-ok _
scan_leases-Ordinary resources index scan (lease ∷ leases) =
    Raises-bind _ _ (scan_lease-Ordinary resources index scan lease)
      (λ scan'. scan_leases-Ordinary resources (suc index) scan' leases)

scan_resources-Ordinary :
    (d : Dict ResourceRecord) (rs : List ResourceRecord) → Ordinary (scan_resources d rs)
unfolding scan_resources
scan_resources-Ordinary d [] = Raises-ok _
scan_resources-Ordinary d (r ∷ rs) = Raises-then _ _ (validate_resource_record-Ordinary r) (
    Raises-then _ _ (Raises-forbid _ contract refl)
      (scan_resources-Ordinary (put r.resource_id r d) rs))

after_end-Ordinary : (o : Option Marker) (span : Span) → Ordinary (after_end o span)
unfolding after_end
after_end-Ordinary none span = Raises-ok _
after_end-Ordinary (some m) span = Raises-forbid _ contract refl

check_intervals-Ordinary :
    (o : Option Marker) (b : Bool) (spans : List Span) → Ordinary (check_intervals o b spans)
unfolding check_intervals
check_intervals-Ordinary o b [] = Raises-ok _
check_intervals-Ordinary o b (span ∷ spans) = Raises-then _ _ (Raises-forbid _ contract refl) (
    Raises-then _ _ (after_end-Ordinary o span)
      (check_intervals-Ordinary span.released (not (is_some span.released)) spans))

latest_agrees-Ordinary : (scan : Scan) (r : ResourceRecord) → Ordinary (latest_agrees scan r)
unfolding latest_agrees
latest_agrees-Ordinary scan r = elim (Option-cases (get r.resource_id scan.latest_settled)) [
  | inl e ↦ rw (e, latest_agrees) (Raises-ok _)
  | inr (m, e) ↦ rw (e, latest_agrees) (Raises-require _ contract refl)
]

stays_invalid-Ordinary : (scan : Scan) (r : ResourceRecord) → Ordinary (stays_invalid scan r)
unfolding stays_invalid
stays_invalid-Ordinary scan r = elim (Option-cases (get r.resource_id scan.invalid_released_at)) [
  | inl e ↦ rw (e, stays_invalid) (Raises-ok _)
  | inr (m, e) ↦ rw (e, stays_invalid) (search raises_rules)
]

check_resource-Ordinary : (scan : Scan) (r : ResourceRecord) → Ordinary (check_resource scan r)
unfolding check_resource
check_resource-Ordinary scan r =
    search (raises_rules, latest_agrees-Ordinary, stays_invalid-Ordinary, check_intervals-Ordinary)
      depth 20 fits 2000

check_active-Ordinary : (d : Dict ResourceRecord) (id : String) → Ordinary (check_active d id)
unfolding check_active
check_active-Ordinary d id = elim (Option-cases (get id d)) [
  | inl e ↦ rw (e, check_active) (Raises-err contract refl)
  | inr (r, e) ↦ rw (e, check_active) (Raises-require _ contract refl)
]

pub validate_snapshot-Ordinary : (s : ResourceLifecycleSnapshot) → Ordinary (validate_snapshot s)
unfolding validate_snapshot
validate_snapshot-Ordinary s =
    search
      (
        raises_rules, scan_resources-Ordinary, scan_leases-Ordinary, check_active-Ordinary,
        check_resource-Ordinary,
      )
      depth 20 fits 2000

canonical_snapshot-Ordinary : (s : ResourceLifecycleSnapshot) → Ordinary (canonical_snapshot s)
unfolding canonical_snapshot
canonical_snapshot-Ordinary s =
    search
      (
        raises_rules, canonical_resource_record-Ordinary, coerce_resource_lease-Ordinary,
        validate_snapshot-Ordinary,
      )
      depth 20 fits 2000

pub as_conflict-Ordinary {ℓ} : {A : Type ℓ} (m : Result A) → Ordinary (as_conflict m)
unfolding as_conflict
as_conflict-Ordinary (ok a) = Raises-ok _
as_conflict-Ordinary (err e) = Raises-err state_conflict refl

load_snapshot-Ordinary : (f : SnapshotFile) → Ordinary (load_snapshot f)
unfolding load_snapshot
load_snapshot-Ordinary SnapshotFile.absent = Raises-ok _
load_snapshot-Ordinary SnapshotFile.unreadable = Raises-err state_conflict refl
load_snapshot-Ordinary (SnapshotFile.holds v) = as_conflict-Ordinary (snapshot_from_dict v)

pub load_checked-Ordinary : (d : Disk) → Ordinary (load_checked d)
unfolding load_checked
load_checked-Ordinary d =
    search
      (
        raises_rules, load_snapshot-Ordinary, canonical_snapshot-Ordinary,
        validate_snapshot-Ordinary,
      )
      depth 20 fits 2000
