-- ===== src/Lifecycle/Snapshot.antt =====
-- `validate_snapshot` of syvert/resource_lifecycle.py: a pass over the resources, a pass over the
-- leases that gathers what each resource went through, and a check of each resource against that.
pub mod LeaseScan
pub mod Inversion
pub mod Holding
pub mod Resources
pub mod Invalidation
pub mod Materials
use syvert.Common.{
  ℕ, zero, suc, String, ◌≡◌, refl, Bool, true, false, not, ◌&&◌, Option, none, some, List, [], ◌∷◌,
  ◌++◌, ◌==◌, is_some, get, put, has, Dict, Result, ok, err, contract, Check, pass, require, forbid,
  each, ◌>>=◌, ◌>>◌, sort_by, if◌then◌else◌,
}
use syvert.Lifecycle.Types.{
  ResourceRecord, ResourceLease, ResourceLifecycleSnapshot, lifecycle_version, in_use, invalid,
}
use syvert.Lifecycle.Records.{validate_resource_record}
use LeaseScan.{Marker, Span, Scan, marker_lt, scan_leases, empty_scan}

-- `resource_ids` is the key set of `resources_by_id`.
unfoldable pub scan_resources :
    Dict ResourceRecord → List ResourceRecord → Result (Dict ResourceRecord)
scan_resources d [] = ok d
scan_resources d (r ∷ rs) = do
  validate_resource_record r
  forbid (is_some (get r.resource_id d)) contract
  scan_resources (put r.resource_id r d) rs

-- `previous_end is not None and acquired_marker < previous_end`
unfoldable pub after_end : Option Marker → Span → Check
after_end none span = pass
after_end (some end) span = forbid (marker_lt span.acquired end) contract

-- The last loop over the leases of one resource, in order of acquisition.
unfoldable pub check_intervals : Option Marker → Bool → List Span → Check
unfolding after_end
check_intervals previous_end active_seen [] = pass
check_intervals previous_end active_seen (span ∷ spans) = do
  forbid active_seen contract
  after_end previous_end span
  check_intervals span.released (not (is_some span.released)) spans

spans_of : Scan → String → List Span
spans_of scan id = elim (get id scan.by_resource) [ none ↦ [] | some spans ↦ spans ]

earlier_span : Span → Span → Bool
earlier_span a b = not (marker_lt b.acquired a.acquired)

unfoldable pub latest_agrees : Scan → ResourceRecord → Check
latest_agrees scan r = elim (get r.resource_id scan.latest_settled) [
  | none ↦ pass
  | some (_, target) ↦ require (r.status == target) contract
]

unfoldable pub stays_invalid : Scan → ResourceRecord → Check
unfolding spans_of each
stays_invalid scan r = elim (get r.resource_id scan.invalid_released_at) [
  | none ↦ pass
  | some marker ↦ (do
    require (r.status == invalid) contract
    each (λ span. forbid (marker_lt marker span.acquired) contract) (spans_of scan r.resource_id))
]

unfoldable pub check_resource : Scan → ResourceRecord → Check
unfolding spans_of earlier_span latest_agrees stays_invalid check_intervals
check_resource scan r = do
  let active = has r.resource_id scan.active
  forbid (r.status == in_use && not active) contract
  if not (r.status == in_use) && not active then latest_agrees scan r else pass
  stays_invalid scan r
  check_intervals none false (sort_by earlier_span (spans_of scan r.resource_id))

-- `resources_by_id[resource_id].status != "IN_USE"`
unfoldable pub check_active : Dict ResourceRecord → String → Check
check_active resources id = elim (get id resources) [
  | none ↦ err contract
  | some r ↦ require (r.status == in_use) contract
]

-- `resources_by_id.values()`
unfoldable pub values : Dict ResourceRecord → List ResourceRecord
values [] = []
values ((_, r) ∷ d) = r ∷ values d

unfoldable pub validate_snapshot : ResourceLifecycleSnapshot → Check
unfolding scan_resources check_resource check_active values each sort_by scan_leases
validate_snapshot s = do
  require (s.schema_version == lifecycle_version) contract
  resources ← scan_resources [] s.resources
  scan ← scan_leases resources zero empty_scan s.leases
  each (check_active resources) scan.active
  each (check_resource scan) (values resources)
