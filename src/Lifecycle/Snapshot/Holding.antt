-- ===== src/Lifecycle/Snapshot/Holding.antt =====
-- Which resources the active leases of a valid snapshot hold.
use syvert.Common.{
  ℕ, zero, suc, ◌+◌, ◌≤◌, String, ◌≡◌, refl, Option, none, some, Option-cases, inl, inr, List, [],
  ◌∷◌, ◌++◌, arith, eq_iff, Dict, has, count, has-eq-ltb, count-append, ok, contract, pass, forbid,
  >>=-eq-ok, >>-eq-ok, ok_injective,
}
use syvert.Time.{parse_lifecycle_time}
use syvert.Lifecycle.Types.{ResourceRecord, ResourceLease, ResourceLifecycleSnapshot}
use syvert.Lifecycle.Selection.{active_resource_ids}
use syvert.Lifecycle.Snapshot.LeaseScan.{
  Marker, Scan, claim, settle, scan_release, scan_lease, scan_leases, empty_scan,
}
use syvert.Lifecycle.Snapshot.Inversion.{scan_lease-Scanned, validate_snapshot-Validated}
use syvert.Lifecycle.Snapshot.{validate_snapshot}

abbrev pub AtMostOnce : List String → Type 0
AtMostOnce xs = (k : String) → count k xs ≤ 1

-- What `claim` adds was not there, and is counted once.
claim-count :
    (active ids : List String) {after : List String}
    → claim active ids ≡ ok after
    → (k : String) → count k after ≡ count k ids + count k active
unfolding claim count
claim-count active [] h k = ground arith
claim-count active (id ∷ ids) h k =
    let (_, rest) = >>-eq-ok (forbid (has id active) contract) (claim (id ∷ active) ids) h in
    omega (arith, claim-count (id ∷ active) ids rest k)

claim-AtMostOnce :
    (active ids : List String) {after : List String}
    → claim active ids ≡ ok after
    → AtMostOnce active
    → AtMostOnce after
unfolding claim count
claim-AtMostOnce active [] h once = λ k. ground (arith, once k)
claim-AtMostOnce active (id ∷ ids) h once =
    let (fresh, rest) = >>-eq-ok (forbid (has id active) contract) (claim (id ∷ active) ids) h in
    claim-AtMostOnce (id ∷ active) ids rest
      λ k. ground (arith, once k, has-eq-ltb id active, eq_iff id k, fresh)

settle-active :
    (marker : Marker) (target : String) (ids : List String) (scan : Scan)
    → (settle marker target ids scan).active ≡ scan.active
unfolding settle
settle-active marker target [] scan = refl
settle-active marker target (id ∷ ids) scan = settle-active marker target ids _

-- what a lease holds, by its `released_at`
held : ResourceLease → Option String → List String
held lease none = lease.resource_ids
held lease (some _) = []

-- What a scan of leases did to the active resources: it added `ids`, none of them twice.
settled-active :
    (index : ℕ) (lease : ResourceLease) (at : String) (scan : Scan) {scan' : Scan}
    {end : Option Marker}
    → scan_release index lease (some at) scan ≡ ok (scan', end)
    → scan'.active ≡ scan.active
unfolding scan_release
settled-active index lease at scan h =
    let (time, _, rest) = >>=-eq-ok (parse_lifecycle_time at) _ h in
    elim (Option-cases lease.target_status_after_release) [
      | inl e ↦ ground (arith, e, rest)
      | inr (target, e) ↦ ground (
        arith,
        e,
        rest,
        settle-active (record { time = time; index = index }) target lease.resource_ids scan,
      )
    ]

pub record Adds (ids before after : List String) : Type 0 where
  pub counts : (k : String) → count k after ≡ count k ids + count k before
  pub once : AtMostOnce before → AtMostOnce after

claim-Adds :
    (active ids : List String) {after : List String}
    → claim active ids ≡ ok after
    → Adds ids active after
claim-Adds active ids h = record {
  counts = claim-count active ids h;
  once = claim-AtMostOnce active ids h;
}

none-Adds : (active : List String) → Adds [] active active
unfolding count
none-Adds active = record { counts = λ k. omega arith; once = λ h. h }

scan_release-Adds :
    (index : ℕ) (lease : ResourceLease) (released_at : Option String) (scan : Scan) {scan' : Scan}
    {end : Option Marker}
    → scan_release index lease released_at scan ≡ ok (scan', end)
    → Adds (held lease released_at) scan.active scan'.active
unfolding scan_release held
scan_release-Adds index lease none scan h =
    let (active, claimed, rest) = >>=-eq-ok (claim scan.active lease.resource_ids) _ h in
    claim-Adds scan.active lease.resource_ids (ground (arith, claimed))
scan_release-Adds index lease (some at) scan h =
    rw (settled-active index lease at scan h) (none-Adds scan.active)

abbrev then_Adds : {xs ys a b c : List String} → Adds xs a b → Adds ys b c → Adds (xs ++ ys) a c
then_Adds {xs} {ys} p q = record {
  counts = λ k. omega (arith, p.counts k, q.counts k, count-append k xs ys);
  once = λ h. q.once (p.once h);
}

scan_lease-Adds :
    (resources : Dict ResourceRecord) (index : ℕ) (scan : Scan) (lease : ResourceLease)
    {scan' : Scan}
    → scan_lease resources index scan lease ≡ ok scan'
    → Adds (held lease lease.released_at) scan.active scan'.active
scan_lease-Adds resources index scan lease h =
    let s = scan_lease-Scanned resources index scan lease h in
    rw s.result (scan_release-Adds index lease lease.released_at scan s.settled)

held-append :
    (lease : ResourceLease) (leases : List ResourceLease)
    → active_resource_ids (lease ∷ leases)
      ≡ held lease lease.released_at ++ active_resource_ids leases
unfolding active_resource_ids held
held-append lease leases = ground arith

pub scan_leases-Adds :
    (resources : Dict ResourceRecord) (index : ℕ) (scan : Scan) (leases : List ResourceLease)
    {scan' : Scan}
    → scan_leases resources index scan leases ≡ ok scan'
    → Adds (active_resource_ids leases) scan.active scan'.active
unfolding scan_leases active_resource_ids
scan_leases-Adds resources index scan [] h = rw (← ok_injective h) (none-Adds scan.active)
scan_leases-Adds resources index scan (lease ∷ leases) h =
    let (next, first, rest) = >>=-eq-ok (scan_lease resources index scan lease) _ h in
    rw (held-append lease leases) (
      then_Adds (scan_lease-Adds resources index scan lease first)
        (scan_leases-Adds resources (suc index) next leases rest))

-- In a snapshot that passes validation, each resource id occurs at most once among the resources of
-- all active leases.
pub active_resource_ids-AtMostOnce :
    (s : ResourceLifecycleSnapshot)
    → validate_snapshot s ≡ pass
    → (k : String) → count k (active_resource_ids s.leases) ≤ 1
unfolding count
active_resource_ids-AtMostOnce s h k =
    let v = validate_snapshot-Validated s h in
    let adds = scan_leases-Adds v.resources zero empty_scan s.leases v.scanned in
    omega (arith, adds.counts k, adds.once (λ j. omega arith) k)
