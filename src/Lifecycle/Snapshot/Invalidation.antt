-- ===== src/Lifecycle/Snapshot/Invalidation.antt =====
-- The resources that a settled lease gave back as INVALID, in `validate_snapshot`.
use syvert.Common.{
  Memᴰ, All-mem, ℕ, zero, suc, String, ◌≡◌, sym, ap, ◌∙◌, Bool, true, false, ◌&&◌, ◌||◌, Option,
  none, some, Option-cases, Bool-cases, inl, inr, List, [], ◌∷◌, arith, ◌==◌, eq_iff, is_some, Dict,
  get, get-put, has, ok, contract, pass, require, each-All, >>=-eq-ok, >>-eq-ok, ok_injective,
  require-eq-pass,
}
use syvert.Time.{parse_lifecycle_time}
use syvert.Lifecycle.Types.{ResourceRecord, ResourceLease, ResourceLifecycleSnapshot, invalid}
use syvert.Lifecycle.Snapshot.LeaseScan.{
  Marker, Scan, empty_scan, claim, later_invalid, settle, scan_release, scan_lease, scan_leases,
}
use syvert.Lifecycle.Snapshot.Inversion.{scan_lease-Scanned, validate_snapshot-Validated}
use syvert.Lifecycle.Snapshot.Resources.{values-scan_resources}
use syvert.Lifecycle.Snapshot.{check_resource, stays_invalid, values, validate_snapshot}

abbrev marked : String → Scan → Bool
marked k scan = is_some (get k scan.invalid_released_at)

-- the lease is settled, as INVALID, and holds the resource
unfoldable pub invalidates : ResourceLease → String → Bool
invalidates lease k = elim lease.released_at [
  | none ↦ false
  | some _ ↦ elim lease.target_status_after_release [
    | none ↦ false
    | some target ↦ target == invalid && has k lease.resource_ids
  ]
]

unfoldable pub was_invalidated : List ResourceLease → String → Bool
unfolding invalidates
was_invalidated [] k = false
was_invalidated (lease ∷ leases) k = invalidates lease k || was_invalidated leases k

same-get : (id k : String) (d : Dict Marker) → (id == k) ≡ true → get k d ≡ get id d
same-get id k d e = ap (λ j. get j d) (sym ((eq_iff id k).0 e))

get-later_invalid :
    (marker : Marker) (id k : String) (d : Dict Marker)
    → is_some (get k (later_invalid marker id d)) ≡ (id == k || is_some (get k d))
unfolding later_invalid
get-later_invalid marker id k d = elim (Bool-cases (id == k)) [
  | inl e ↦ ground (arith, get-put id k marker d, e, same-get id k d e)
  | inr e ↦ ground (arith, get-put id k marker d, e)
]

marked-settle :
    (marker : Marker) (target : String) (ids : List String) (scan : Scan) (k : String)
    → marked k (settle marker target ids scan) ≡ ((target == invalid && has k ids) || marked k scan)
unfolding settle has
marked-settle marker target [] scan k = ground arith
marked-settle marker target (id ∷ ids) scan k =
    marked-settle marker target ids _ k
    ∙ ground (arith, get-later_invalid marker id k scan.invalid_released_at)

marked-scan_release :
    (index : ℕ) (lease : ResourceLease) (scan : Scan) (k : String) {after : Scan}
    {end : Option Marker}
    → scan_release index lease lease.released_at scan ≡ ok (after, end)
    → marked k after ≡ (invalidates lease k || marked k scan)
unfolding scan_release invalidates
marked-scan_release index lease scan k h = elim (Option-cases lease.released_at) [
  | inl e ↦
      (let h' = rw e at h in
        let (active, claimed, rest) = >>=-eq-ok (claim scan.active lease.resource_ids) _ h' in
        ground (arith, e, rest))
  | inr (at, e) ↦
      (let h' = rw e at h in
        let (time, _, rest) = >>=-eq-ok (parse_lifecycle_time at) _ h' in
        elim (Option-cases lease.target_status_after_release) [
          | inl t ↦ ground (arith, e, t, rest)
          | inr (target, t) ↦ ground (
            arith,
            e,
            t,
            rest,
            marked-settle (record { time = time; index = index }) target lease.resource_ids scan k,
          )
        ])
]

marked-scan_leases :
    (resources : Dict ResourceRecord) (index : ℕ) (scan : Scan) (leases : List ResourceLease)
    (k : String) {after : Scan}
    → scan_leases resources index scan leases ≡ ok after
    → marked k after ≡ (was_invalidated leases k || marked k scan)
unfolding scan_leases was_invalidated
marked-scan_leases resources index scan [] k h = ap (marked k) (sym (ok_injective h))
marked-scan_leases resources index scan (lease ∷ leases) k h =
    let (next, first, rest) = >>=-eq-ok (scan_lease resources index scan lease) _ h in
    let s = scan_lease-Scanned resources index scan lease first in
    ground (
      arith,
      marked-scan_leases resources (suc index) next leases k rest,
      marked-scan_release index lease scan k s.settled,
      ap (marked k) s.result,
    )

check_resource-invalid :
    (scan : Scan) (r : ResourceRecord)
    → check_resource scan r ≡ pass
    → marked r.resource_id scan ≡ true
    → r.status ≡ invalid
unfolding check_resource stays_invalid
check_resource-invalid scan r h m =
    let (_, h) = >>-eq-ok _ _ h in
    let (_, h) = >>-eq-ok _ _ h in
    let (stays, _) = >>-eq-ok (stays_invalid scan r) _ h in
    elim (Option-cases (get r.resource_id scan.invalid_released_at)) [
      | inl e ↦ ground (arith, e, m)
      | inr (marker, e) ↦
          (let (is, _) =
              >>-eq-ok (require (r.status == invalid) contract) _
                (rw (e, stays_invalid) at stays) in
            (eq_iff r.status invalid).0 (require-eq-pass _ contract is))
    ]

-- In a snapshot that passes validation, a resource that some settled lease gave back as INVALID has
-- the status INVALID, whatever other leases there are.
pub was_invalidated-invalid :
    (s : ResourceLifecycleSnapshot) (r : ResourceRecord)
    → validate_snapshot s ≡ pass
    → Memᴰ r s.resources
    → was_invalidated s.leases r.resource_id ≡ true
    → r.status ≡ invalid
unfolding values
was_invalidated-invalid s r h member was =
    let v = validate_snapshot-Validated s h in
    let consistent =
      each-All (check_resource v.scan) s.resources
        (rw (values-scan_resources [] s.resources v.indexed) at v.consistent) in
    check_resource-invalid v.scan r (All-mem _ s.resources consistent member) (
      ground (
        arith,
        marked-scan_leases v.resources zero empty_scan s.leases r.resource_id v.scanned,
        was,
      ))
