-- ===== src/Lifecycle/Snapshot/LeaseScan.antt =====
-- The pass of `validate_snapshot` over the leases, with the sets and dicts that it fills.
use syvert.Common.{
  ℕ, suc, String, Bool, ◌&&◌, ◌||◌, Option, none, some, List, [], ◌∷◌, ◌++◌, ◌==◌, ltb, eqb,
  is_some, get, put, has, Dict, Result, ok, err, contract, require, forbid, each, ◌>>=◌, ◌>>◌,
  if◌then◌else◌,
}
use syvert.Time.{parse_lifecycle_time}
use syvert.Lifecycle.Types.{ResourceRecord, ResourceLease, invalid}
use syvert.Lifecycle.Records.{validate_resource_lease}

-- `(datetime, lease_index)`, compared as a tuple
pub record Marker : Type 0 where
  pub time : ℕ
  pub index : ℕ

abbrev pub marker_lt : Marker → Marker → Bool
marker_lt a b = ltb a.time b.time || (eqb a.time b.time && ltb a.index b.index)

-- `(acquired_marker, released_marker, lease)`; nothing reads the lease
pub record Span : Type 0 where
  pub acquired : Marker
  pub released : Option Marker

pub record Scan : Type 0 where
  pub lease_ids : List String
  pub active : List String
  pub latest_settled : Dict (Marker × String)
  pub invalid_released_at : Dict Marker
  pub by_resource : Dict (List Span)

abbrev pub empty_scan : Scan
empty_scan = record {
  lease_ids = [];
  active = [];
  latest_settled = [];
  invalid_released_at = [];
  by_resource = [];
}

-- An active lease takes its resources, each of which no other active lease may hold.
unfoldable pub claim : List String → List String → Result (List String)
claim active [] = ok active
claim active (id ∷ ids) = do forbid (has id active) contract; claim (id ∷ active) ids

-- `if latest is None or marker > latest[0]: latest_settled_by_resource_id[id] = (marker, target)`
unfoldable pub later_settled :
    Marker → String → String → Dict (Marker × String) → Dict (Marker × String)
later_settled marker target id d = elim (get id d) [
  | none ↦ put id (marker, target) d
  | some (latest, old) ↦ if marker_lt latest marker then put id (marker, target) d else d
]

unfoldable pub later_invalid : Marker → String → Dict Marker → Dict Marker
later_invalid marker id d = elim (get id d) [
  | none ↦ put id marker d
  | some latest ↦ if marker_lt latest marker then put id marker d else d
]

unfoldable pub settle : Marker → String → List String → Scan → Scan
settle marker target [] scan = scan
settle marker target (id ∷ ids) scan = settle marker target ids (record scan {
  latest_settled = later_settled marker target id scan.latest_settled;
  invalid_released_at =
      (if target == invalid
        then later_invalid marker id scan.invalid_released_at
        else scan.invalid_released_at);
})

-- `leases_by_resource_id.setdefault(id, []).append(span)`
pub add_span : Span → List String → Dict (List Span) → Dict (List Span)
add_span span [] d = d
add_span span (id ∷ ids) d =
    add_span span ids
      (elim (get id d) [ none ↦ put id (span ∷ []) d | some spans ↦ put id (spans ++ span ∷ []) d ])

-- The branch on `lease.released_at`. A settled lease has a target: the lease was validated.
unfoldable pub scan_release :
    ℕ → ResourceLease → Option String → Scan → Result (Scan × Option Marker)
unfolding claim settle later_settled later_invalid
scan_release index lease none scan = do
  active ← claim scan.active lease.resource_ids
  ok (record scan { active = active }, none)
scan_release index lease (some released_at) scan = do
  time ← parse_lifecycle_time released_at
  let marker : Marker = record { time = time; index = index }
  elim lease.target_status_after_release [
    | none ↦ err contract
    | some target ↦ ok (settle marker target lease.resource_ids scan, some marker)
  ]

unfoldable pub scan_lease : Dict ResourceRecord → ℕ → Scan → ResourceLease → Result Scan
unfolding scan_release add_span each
scan_lease resources index scan lease = do
  validate_resource_lease lease
  time ← parse_lifecycle_time lease.acquired_at
  forbid (has lease.lease_id scan.lease_ids) contract
  each (λ id. require (is_some (get id resources)) contract) lease.resource_ids
  (scan', released) ← scan_release index lease lease.released_at scan
  let span : Span = record { acquired = record { time = time; index = index }; released = released }
  ok (record scan' {
    lease_ids = lease.lease_id ∷ scan.lease_ids;
    by_resource = add_span span lease.resource_ids scan'.by_resource;
  })

-- `for lease_index, lease in enumerate(snapshot.leases)`
unfoldable pub scan_leases : Dict ResourceRecord → ℕ → Scan → List ResourceLease → Result Scan
unfolding scan_lease
scan_leases resources index scan [] = ok scan
scan_leases resources index scan (lease ∷ leases) = do
  scan' ← scan_lease resources index scan lease
  scan_leases resources (suc index) scan' leases
