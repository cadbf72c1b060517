-- ===== src/Lifecycle/Snapshot/Materials.antt =====
-- `validate_snapshot` looks at a material only to see whether it can be normalized.
use syvert.Common.{
  ℕ, zero, suc, String, ◌≡◌, refl, sym, ap, ◌∙◌, Option, none, some, Option-cases, inl, inr, List,
  [], ◌∷◌, arith, ◌==◌, is_some, Dict, get, put, get-put, Result, ok, contract, Check, pass,
  require, forbid, each, traverse, ◌>>=◌, >>=-eq-ok, >>-eq-ok, ok_injective,
}
use syvert.Lifecycle.Types.{
  ResourceRecord, ResourceLease, ResourceLifecycleSnapshot, lifecycle_version,
}
use syvert.Lifecycle.Records.{validate_resource_record}
use syvert.Lifecycle.Snapshot.LeaseScan.{Scan, scan_lease, scan_leases, empty_scan}
use syvert.Lifecycle.Snapshot.Resources.{values-scan_resources}
use syvert.Lifecycle.Snapshot.{
  scan_resources, check_active, check_resource, latest_agrees, stays_invalid, validate_snapshot,
}

each-same {ℓ} :
    {A : Type ℓ} (f g : A → Check) → ((x : A) → f x ≡ g x) → (xs : List A) → each f xs ≡ each g xs
unfolding each
each-same f g same [] = refl
each-same f g same (x ∷ xs) = rw (same x, each-same f g same xs) refl

abbrev status_of : Option ResourceRecord → Option String
status_of none = none
status_of (some r) = some r.status

-- Two dicts with the same keys, and the same status for each.
abbrev Agree : Dict ResourceRecord → Dict ResourceRecord → Type 0
Agree d e = (k : String) → status_of (get k d) ≡ status_of (get k e)

status_of-is_some :
    (a b : Option ResourceRecord) → status_of a ≡ status_of b → is_some a ≡ is_some b
status_of-is_some none none h = refl
status_of-is_some none (some s) h = cc
status_of-is_some (some r) none h = cc
status_of-is_some (some r) (some s) h = refl

check_active-same :
    (d e : Dict ResourceRecord) → Agree d e → (k : String) → check_active d k ≡ check_active e k
unfolding check_active
check_active-same d e agree k = elim (Option-cases (get k d)) [
  | inl p ↦ elim (Option-cases (get k e)) [
    | inl q ↦ rw (p, q, check_active) refl
    | inr (s, q) ↦ absurd (let h = rw (p, q) at (agree k) in cc h)
  ]
  | inr (r, p) ↦ elim (Option-cases (get k e)) [
    | inl q ↦ absurd (let h = rw (p, q) at (agree k) in cc h)
    | inr (s, q) ↦
        (let h : some r.status ≡ some s.status = rw (p, q) at (agree k) in
          let same : r.status ≡ s.status = cc h in rw (p, q, check_active) (rw same refl))
  ]
]

-- The record with another material.
abbrev Same : ResourceRecord → ResourceRecord → Type 0
Same r r' = r' ≡ record r { material = r'.material }

put-Agree :
    (d e : Dict ResourceRecord) (r r' : ResourceRecord)
    → Same r r'
    → Agree d e
    → Agree (put r.resource_id r d) (put r'.resource_id r' e)
put-Agree d e r r' same agree k =
    let id : r'.resource_id ≡ r.resource_id = ap (λ (x : ResourceRecord). x.resource_id) same in
    let status : r'.status ≡ r.status = ap (λ (x : ResourceRecord). x.status) same in
    ground (arith, id, status, agree k, get-put r.resource_id k r d, get-put r'.resource_id k r' e)

check_resource-kept :
    (scan : Scan) (r r' : ResourceRecord)
    → Same r r'
    → check_resource scan r' ≡ check_resource scan r
unfolding check_resource latest_agrees stays_invalid
check_resource-kept scan r r' same = ap (check_resource scan) same

scan_lease-same :
    (d e : Dict ResourceRecord)
    → Agree d e
    → (index : ℕ) (scan : Scan) (lease : ResourceLease)
    → scan_lease d index scan lease ≡ scan_lease e index scan lease
unfolding scan_lease
scan_lease-same d e agree index scan lease =
    let known =
      each-same (λ id. require (is_some (get id d)) contract)
        (λ id. require (is_some (get id e)) contract)
        (λ id. ap (λ b. require b contract) (status_of-is_some (get id d) (get id e) (agree id)))
        lease.resource_ids in
    rw (known, scan_lease) refl

scan_leases-same :
    (d e : Dict ResourceRecord)
    → Agree d e
    → (index : ℕ) (scan : Scan) (leases : List ResourceLease)
    → scan_leases d index scan leases ≡ scan_leases e index scan leases
unfolding scan_leases
scan_leases-same d e agree index scan [] = refl
scan_leases-same d e agree index scan (lease ∷ leases) =
    rw (scan_lease-same d e agree index scan lease) (
      ap (λ next. scan_lease e index scan lease >>= next)
        (λ i scan'. scan_leases-same d e agree (suc index) scan' leases i))

module _ (f : ResourceRecord → Result ResourceRecord)
    (keeps : (r r' : ResourceRecord)
      → f r ≡ ok r'
      → Same r r' × (validate_resource_record r' ≡ pass)) where
  scan_resources-same :
      (d e : Dict ResourceRecord) (rs : List ResourceRecord) {rs' : List ResourceRecord}
      {d' : Dict ResourceRecord}
      → traverse f rs ≡ ok rs'
      → Agree d e
      → scan_resources d rs ≡ ok d'
      → (e' : Dict ResourceRecord) × (scan_resources e rs' ≡ ok e') × Agree d' e'
  unfolding traverse scan_resources
  scan_resources-same d e [] t agree h =
      let same = ok_injective h in
      (e, rw (← ok_injective t) refl, λ k. ap (λ x. status_of (get k x)) (sym same) ∙ agree k)
  scan_resources-same d e (r ∷ rs) t agree h =
      let (r', made, t) = >>=-eq-ok (f r) _ t in
      let (rs', more, last) = >>=-eq-ok (traverse f rs) _ t in
      let (same, valid) = keeps r r' made in
      let (_, h) = >>-eq-ok (validate_resource_record r) _ h in
      let (fresh, h) = >>-eq-ok (forbid (is_some (get r.resource_id d)) contract) _ h in
      let id : r'.resource_id ≡ r.resource_id = ap (λ (x : ResourceRecord). x.resource_id) same in
      let fresh' : forbid (is_some (get r'.resource_id e)) contract ≡ pass =
        ap (λ k. forbid (is_some (get k e)) contract) id
        ∙ ap (λ b. forbid b contract) (sym (status_of-is_some _ _ (agree r.resource_id)))
        ∙ fresh in
      let (e', indexed, agree') =
        scan_resources-same (put r.resource_id r d) (put r'.resource_id r' e) rs more
          (put-Agree d e r r' same agree) h in
      (e', rw (← ok_injective last) (rw (valid, scan_resources) (rw fresh' indexed)), agree')

  check_resources-same :
      (scan : Scan) (rs : List ResourceRecord) {rs' : List ResourceRecord}
      → traverse f rs ≡ ok rs'
      → each (check_resource scan) rs' ≡ each (check_resource scan) rs
  unfolding traverse each
  check_resources-same scan [] t = rw (← ok_injective t) refl
  check_resources-same scan (r ∷ rs) t =
      let (r', made, t) = >>=-eq-ok (f r) _ t in
      let (rs', more, last) = >>=-eq-ok (traverse f rs) _ t in
      rw (← ok_injective last) (
        rw (check_resource-kept scan r r' (keeps r r' made).0, check_resources-same scan rs more)
          refl)

  -- A snapshot that passes validation still passes it when its records were replaced by valid ones
  -- that differ in the material only.
  pub validate_snapshot-same :
      (s : ResourceLifecycleSnapshot) {rs : List ResourceRecord}
      → traverse f s.resources ≡ ok rs
      → validate_snapshot s ≡ pass
      → validate_snapshot (record s { resources = rs }) ≡ pass
  unfolding validate_snapshot
  validate_snapshot-same s {rs} t h =
      let (version, h) = >>-eq-ok (require (s.schema_version == lifecycle_version) contract) _ h in
      let (d, indexed, h) = >>=-eq-ok (scan_resources [] s.resources) _ h in
      let (scan, scanned, h) = >>=-eq-ok (scan_leases d zero empty_scan s.leases) _ h in
      let (active, consistent) = >>-eq-ok (each (check_active d) scan.active) _ h in
      let (e, indexed', agree) = scan_resources-same [] [] s.resources t (λ k. refl) indexed in
      let scanned' = sym (scan_leases-same d e agree zero empty_scan s.leases) ∙ scanned in
      let active' =
        sym (each-same (check_active d) (check_active e) (check_active-same d e agree) scan.active)
        ∙ active in
      let consistent' =
        ap (each (check_resource scan)) (values-scan_resources [] rs indexed')
        ∙ check_resources-same scan s.resources t
        ∙ ap (each (check_resource scan)) (sym (values-scan_resources [] s.resources indexed))
        ∙ consistent in
      rw (version, validate_snapshot)
        (rw (indexed', validate_snapshot)
          (rw (scanned', validate_snapshot) (rw active' consistent')))
