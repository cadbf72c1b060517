-- ===== src/Lifecycle/Snapshot/Inversion.antt =====
-- What a scan of a lease, or a validation of a snapshot, that raised nothing went through.
use syvert.Common.{
  ℕ, zero, ◌≡◌, false, Option, [], ◌∷◌, ◌==◌, Dict, get, has, is_some, arith, ok, contract, pass,
  forbid, require, each, >>=-eq-ok, >>-eq-ok,
}
use syvert.Time.{parse_lifecycle_time}
use syvert.Lifecycle.Types.{
  ResourceRecord, ResourceLease, ResourceLifecycleSnapshot, lifecycle_version,
}
use syvert.Lifecycle.Records.{validate_resource_lease}
use syvert.Lifecycle.Snapshot.LeaseScan.{
  Marker, Scan, add_span, scan_release, scan_lease, scan_leases, empty_scan,
}
use syvert.Lifecycle.Snapshot.{
  scan_resources, check_active, check_resource, values, validate_snapshot,
}

pub record Scanned (resources : Dict ResourceRecord) (index : ℕ) (scan : Scan)
    (lease : ResourceLease) (after : Scan) : Type 0 where
  pub valid : validate_resource_lease lease ≡ pass
  pub time : ℕ
  pub acquired : parse_lifecycle_time lease.acquired_at ≡ ok time
  pub fresh : has lease.lease_id scan.lease_ids ≡ false
  pub known : each (λ id. require (is_some (get id resources)) contract) lease.resource_ids ≡ pass
  pub middle : Scan
  pub end : Option Marker
  pub settled : scan_release index lease lease.released_at scan ≡ ok (middle, end)
  pub result : after ≡ record middle {
    lease_ids = lease.lease_id ∷ scan.lease_ids;
    by_resource =
        add_span
          (record { acquired = record { time = time; index = index }; released = end })
          lease.resource_ids
          middle.by_resource;
  }

pub scan_lease-Scanned :
    (resources : Dict ResourceRecord) (index : ℕ) (scan : Scan) (lease : ResourceLease)
    {after : Scan}
    → scan_lease resources index scan lease ≡ ok after
    → Scanned resources index scan lease after
unfolding scan_lease
scan_lease-Scanned resources index scan lease h =
    let (valid, h) = >>-eq-ok (validate_resource_lease lease) _ h in
    let (time, acquired, h) = >>=-eq-ok (parse_lifecycle_time lease.acquired_at) _ h in
    let (fresh, h) = >>-eq-ok (forbid (has lease.lease_id scan.lease_ids) contract) _ h in
    let (known, h) = >>-eq-ok (each _ lease.resource_ids) _ h in
    let (pair, settled, h) = >>=-eq-ok (scan_release index lease lease.released_at scan) _ h in
    record {
      valid = valid;
      time = time;
      acquired = acquired;
      fresh = ground (arith, fresh);
      known = known;
      middle = pair.0;
      end = pair.1;
      settled = settled;
      result = cc h;
    }

-- The parts of a validation that passed.
pub record Validated (s : ResourceLifecycleSnapshot) : Type 0 where
  pub resources : Dict ResourceRecord
  pub indexed : scan_resources [] s.resources ≡ ok resources
  pub scan : Scan
  pub scanned : scan_leases resources zero empty_scan s.leases ≡ ok scan
  pub active : each (check_active resources) scan.active ≡ pass
  pub consistent : each (check_resource scan) (values resources) ≡ pass

pub validate_snapshot-Validated :
    (s : ResourceLifecycleSnapshot) → validate_snapshot s ≡ pass → Validated s
unfolding validate_snapshot
validate_snapshot-Validated s h =
    let (_, h) = >>-eq-ok (require (s.schema_version == lifecycle_version) contract) _ h in
    let (resources, indexed, h) = >>=-eq-ok (scan_resources [] s.resources) _ h in
    let (scan, scanned, h) = >>=-eq-ok (scan_leases resources zero empty_scan s.leases) _ h in
    let (active, consistent) = >>-eq-ok (each (check_active resources) scan.active) _ h in
    record {
      resources = resources;
      indexed = indexed;
      scan = scan;
      scanned = scanned;
      active = active;
      consistent = consistent;
    }
