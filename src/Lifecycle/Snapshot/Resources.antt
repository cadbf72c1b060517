-- ===== src/Lifecycle/Snapshot/Resources.antt =====
-- The resources of a snapshot that passes `validate_snapshot`, against its active leases.
use syvert.Common.{
  Memᴰ, All-mem, zero, String, ◌≡◌, refl, sym, ap, true, not, ◌&&◌, none, some, Bool-cases, inl,
  inr, List, [], ◌∷◌, ◌++◌, arith, ◌==◌, eq_iff, eq_refl, is_some, Dict, get, put, get-put, has,
  count, has-eq-ltb, ok, contract, pass, forbid, each, each-All, All, Bool-eq_of_iff, >>-eq-ok,
  ok_injective, require-eq-pass,
}
use mathlib.Core.List.{append-nil, append_assoc}
use syvert.Lifecycle.Types.{ResourceRecord, ResourceLifecycleSnapshot, in_use}
use syvert.Lifecycle.Records.{validate_resource_record}
use syvert.Lifecycle.Selection.{active_resource_ids}
use syvert.Lifecycle.Snapshot.LeaseScan.{Scan, empty_scan}
use syvert.Lifecycle.Snapshot.Inversion.{Validated, validate_snapshot-Validated}
use syvert.Lifecycle.Snapshot.Holding.{scan_leases-Adds}
use syvert.Lifecycle.Snapshot.{
  scan_resources, check_active, check_resource, values, validate_snapshot,
}

put-values :
    (k : String) (r : ResourceRecord) (d : Dict ResourceRecord)
    → get k d ≡ none
    → values (put k r d) ≡ values d ++ r ∷ []
unfolding values get put
put-values k r [] h = refl
put-values k r ((j, v) ∷ d) h = ground (arith, put-values k r d)

-- One record in: its id was not there.
scan_resources-cons :
    (d : Dict ResourceRecord) (r : ResourceRecord) (rs : List ResourceRecord)
    {d' : Dict ResourceRecord}
    → scan_resources d (r ∷ rs) ≡ ok d'
    → (validate_resource_record r ≡ pass)
      × (get r.resource_id d ≡ none)
      × (scan_resources (put r.resource_id r d) rs ≡ ok d')
unfolding scan_resources
scan_resources-cons d r rs h =
    let (valid, h) = >>-eq-ok (validate_resource_record r) _ h in
    let (fresh, h) = >>-eq-ok (forbid (is_some (get r.resource_id d)) contract) _ h in
    (valid, ground (arith, fresh), h)

pub values-scan_resources :
    (d : Dict ResourceRecord) (rs : List ResourceRecord) {d' : Dict ResourceRecord}
    → scan_resources d rs ≡ ok d'
    → values d' ≡ values d ++ rs
values-scan_resources d [] {d'} h =
    rw (append-nil (values d)) (unfold scan_resources in ap values (sym (ok_injective h)))
values-scan_resources d (r ∷ rs) h =
    let (_, fresh, rest) = scan_resources-cons d r rs h in
    cc (
      values-scan_resources (put r.resource_id r d) rs rest,
      put-values r.resource_id r d fresh,
      append_assoc (values d) (r ∷ []) rs,
    )

scan_resources-keeps :
    (d : Dict ResourceRecord) (rs : List ResourceRecord) (k : String) {d' : Dict ResourceRecord}
    {r : ResourceRecord}
    → scan_resources d rs ≡ ok d'
    → get k d ≡ some r
    → get k d' ≡ some r
unfolding scan_resources
scan_resources-keeps d [] k h g = ground arith
scan_resources-keeps d (x ∷ rs) k h g =
    let (_, fresh, rest) = scan_resources-cons d x rs h in
    scan_resources-keeps (put x.resource_id x d) rs k rest
      (ground (arith, get-put x.resource_id k x d, eq_iff x.resource_id k, fresh))

scan_resources-finds :
    (d : Dict ResourceRecord) (rs : List ResourceRecord) {d' : Dict ResourceRecord}
    → scan_resources d rs ≡ ok d'
    → All (λ r. get r.resource_id d' ≡ some r) rs
scan_resources-finds d [] h = tt
scan_resources-finds d (r ∷ rs) h =
    let (_, fresh, rest) = scan_resources-cons d r rs h in
    (
      scan_resources-keeps (put r.resource_id r d) rs r.resource_id rest
          (ground (arith, get-put r.resource_id r.resource_id r d, eq_refl r.resource_id)),
      scan_resources-finds (put r.resource_id r d) rs rest,
    )

-- An active resource is IN_USE.
check_active-in_use :
    (resources : Dict ResourceRecord) (ids : List String) (r : ResourceRecord)
    → each (check_active resources) ids ≡ pass
    → get r.resource_id resources ≡ some r
    → has r.resource_id ids ≡ true
    → (r.status == in_use) ≡ true
unfolding check_active has each
check_active-in_use resources [] r h found held = cc
check_active-in_use resources (id ∷ ids) r h found held =
    let (first, rest) = >>-eq-ok (check_active resources id) _ h in
    elim (Bool-cases (id == r.resource_id)) [
      | inl e ↦ here ((eq_iff id r.resource_id).0 e) first
      | inr e ↦ check_active-in_use resources ids r rest found (rw e at held)
    ]
  where
    here : id ≡ r.resource_id → check_active resources id ≡ pass → (r.status == in_use) ≡ true
    here e c =
        require-eq-pass (r.status == in_use) contract
          (ground (arith, found, ap (λ k. get k resources) e))

check_resource-held :
    (scan : Scan) (r : ResourceRecord)
    → check_resource scan r ≡ pass
    → (r.status == in_use) ≡ true
    → has r.resource_id scan.active ≡ true
unfolding check_resource
check_resource-held scan r h used =
    let (consistent, _) =
      >>-eq-ok (forbid (r.status == in_use && not (has r.resource_id scan.active)) contract) _ h in
    ground (arith, consistent, used)

pub has-scan_active :
    (s : ResourceLifecycleSnapshot) (v : Validated s) (k : String)
    → has k v.scan.active ≡ has k (active_resource_ids s.leases)
unfolding count
has-scan_active s v k =
    let adds = scan_leases-Adds v.resources zero empty_scan s.leases v.scanned in
    cc (
      has-eq-ltb k v.scan.active,
      has-eq-ltb k (active_resource_ids s.leases),
      let e : count k v.scan.active ≡ count k (active_resource_ids s.leases) =
            omega (arith, adds.counts k) in
          e,
    )

-- In a snapshot that passes validation, a resource of it has the status IN_USE exactly when an
-- active lease holds its id.
pub in_use-eq-has_active :
    (s : ResourceLifecycleSnapshot) (r : ResourceRecord)
    → validate_snapshot s ≡ pass
    → Memᴰ r s.resources
    → (r.status == in_use) ≡ has r.resource_id (active_resource_ids s.leases)
unfolding values
in_use-eq-has_active s r h member =
    let v = validate_snapshot-Validated s h in
    let found = scan_resources-finds [] s.resources v.indexed in
    let consistent =
      each-All (check_resource v.scan) s.resources
        (rw (values-scan_resources [] s.resources v.indexed) at v.consistent) in
    rw (← has-scan_active s v r.resource_id) (
      Bool-eq_of_iff _ _ (check_resource-held v.scan r (All-mem _ s.resources consistent member)) (
        check_active-in_use v.resources v.scan.active r v.active
          (All-mem _ s.resources found member)))
