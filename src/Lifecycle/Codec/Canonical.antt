-- ===== src/Lifecycle/Codec/Canonical.antt =====
-- `canonical_snapshot` of syvert/resource_lifecycle.py and its parts.
use syvert.Common.{
  ◌≡◌, refl, true, sym, ap, ◌∙◌, subst, List, [], ◌∷◌, map, All, Result, ok, pass, traverse,
  >>=-eq-ok, >>-eq-ok, ok_injective,
}
use syvert.Json.{null, normalize_json_value}
use syvert.Json.Normal.{is_json, normalize-normal, normalize-is_json}
use syvert.Lifecycle.Types.{ResourceRecord, ResourceLease, ResourceLifecycleSnapshot}
use syvert.Lifecycle.Records.{
  normalize_resource_material, validate_resource_record, validate_resource_lease,
}
use syvert.Lifecycle.Snapshot.{validate_snapshot}
use syvert.Lifecycle.Codec.{canonical_resource_record, coerce_resource_lease, canonical_snapshot}

-- A record whose material is normal.
abbrev pub Normal : ResourceRecord → Type 0
Normal r = normalize_resource_material r.material ≡ ok r.material

-- What `canonical_resource_record` makes of a record.
pub record CanonicalRecord (r r' : ResourceRecord) : Type 0 where
  pub material : normalize_resource_material r.material ≡ ok r'.material
  pub rest : r' ≡ record r { material = r'.material }
  pub valid : validate_resource_record r' ≡ pass

pub canonical_resource_record-CanonicalRecord :
    (r r' : ResourceRecord) → canonical_resource_record r ≡ ok r' → CanonicalRecord r r'
unfolding canonical_resource_record
canonical_resource_record-CanonicalRecord r r' h =
    let (m, e, h) = >>=-eq-ok (normalize_resource_material r.material) _ h in
    let (valid, last) = >>-eq-ok (validate_resource_record (record r { material = m })) _ h in
    subst (CanonicalRecord r) (ok_injective last)
      record { material = e; rest = refl; valid = valid }

canonical_record-twice :
    (r r' : ResourceRecord)
    → canonical_resource_record r ≡ ok r'
    → canonical_resource_record r' ≡ ok r'
unfolding canonical_resource_record
canonical_record-twice r r' h =
    let c = canonical_resource_record-CanonicalRecord r r' h in
    rw (normalize-normal r.material c.material) (rw c.valid refl)

coerce_lease-eq : (l l' : ResourceLease) → coerce_resource_lease l ≡ ok l' → l' ≡ l
unfolding coerce_resource_lease
coerce_lease-eq l l' h = let (_, last) = >>-eq-ok (validate_resource_lease l) _ h in cc last

traverse-eq_self {ℓ} :
    {A : Type ℓ} (f : A → Result A)
    → ((x y : A) → f x ≡ ok y → y ≡ x)
    → (xs : List A) {ys : List A} → traverse f xs ≡ ok ys
    → ys ≡ xs
unfolding traverse
traverse-eq_self f same [] h = sym (ok_injective h)
traverse-eq_self f same (x ∷ xs) h =
    let (y, first, rest) = >>=-eq-ok (f x) _ h in
    let (ys, more, last) = >>=-eq-ok (traverse f xs) _ rest in
    cc (same x y first, traverse-eq_self f same xs more)

pub coerced_leases-eq :
    (ls : List ResourceLease) {ls' : List ResourceLease}
    → traverse coerce_resource_lease ls ≡ ok ls'
    → ls' ≡ ls
coerced_leases-eq = traverse-eq_self coerce_resource_lease coerce_lease-eq

traverse-twice {ℓ} :
    {A : Type ℓ} (f : A → Result A)
    → ((x y : A) → f x ≡ ok y → f y ≡ ok y)
    → (xs : List A) {ys : List A} → traverse f xs ≡ ok ys
    → traverse f ys ≡ ok ys
unfolding traverse
traverse-twice f again [] h = rw (← ok_injective h) refl
traverse-twice f again (x ∷ xs) h =
    let (y, first, rest) = >>=-eq-ok (f x) _ h in
    let (ys, more, last) = >>=-eq-ok (traverse f xs) _ rest in
    rw (← ok_injective last) (rw (again x y first) (rw (traverse-twice f again xs more) refl))

abbrev without_material : ResourceRecord → ResourceRecord
without_material r = record r { material = null }

canonical_records-materials :
    (rs : List ResourceRecord) {rs' : List ResourceRecord}
    → traverse canonical_resource_record rs ≡ ok rs'
    → traverse (λ r. normalize_json_value r.material) rs ≡ ok (map (λ r. r.material) rs')
unfolding traverse
canonical_records-materials [] h = rw (← ok_injective h) refl
canonical_records-materials (r ∷ rs) h =
    let (r', first, rest) = >>=-eq-ok (canonical_resource_record r) _ h in
    let (rs', more, last) = >>=-eq-ok (traverse canonical_resource_record rs) _ rest in
    let c = canonical_resource_record-CanonicalRecord r r' first in
    rw (← ok_injective last) (rw c.material (rw (canonical_records-materials rs more) refl))

canonical_records-rest :
    (rs : List ResourceRecord) {rs' : List ResourceRecord}
    → traverse canonical_resource_record rs ≡ ok rs'
    → map without_material rs' ≡ map without_material rs
unfolding traverse
canonical_records-rest [] h = rw (← ok_injective h) refl
canonical_records-rest (r ∷ rs) h =
    let (r', first, rest) = >>=-eq-ok (canonical_resource_record r) _ h in
    let (rs', more, last) = >>=-eq-ok (traverse canonical_resource_record rs) _ rest in
    let c = canonical_resource_record-CanonicalRecord r r' first in
    let here : without_material r' ≡ without_material r = ap without_material c.rest in
    rw (← ok_injective last) (cc (here, canonical_records-rest rs more))

pub canonical_records-Normal :
    (rs : List ResourceRecord) {rs' : List ResourceRecord}
    → traverse canonical_resource_record rs ≡ ok rs'
    → All Normal rs'
unfolding traverse
canonical_records-Normal [] h = subst (All Normal) (ok_injective h) tt
canonical_records-Normal (r ∷ rs) h =
    let (r', first, rest) = >>=-eq-ok (canonical_resource_record r) _ h in
    let (rs', more, last) = >>=-eq-ok (traverse canonical_resource_record rs) _ rest in
    let c = canonical_resource_record-CanonicalRecord r r' first in
    subst (All Normal) (ok_injective last)
      (normalize-normal r.material c.material, canonical_records-Normal rs more)

-- A record whose material is one that JSON has.
abbrev pub Plain : ResourceRecord → Type 0
Plain r = is_json r.material ≡ true

records-Plain : (rs : List ResourceRecord) → All Normal rs → All Plain rs
records-Plain [] normal = tt
records-Plain (r ∷ rs) normal = (normalize-is_json r.material normal.0, records-Plain rs normal.1)

-- What `canonical_snapshot` makes of a snapshot: its materials are normalized to values that JSON
-- has, and the rest stays.
pub record Canonical (s s' : ResourceLifecycleSnapshot) : Type 0 where
  pub materials :
      traverse (λ r. normalize_json_value r.material) s.resources
      ≡ ok (map (λ r. r.material) s'.resources)
  pub others : map without_material s'.resources ≡ map without_material s.resources
  pub plain : All Plain s'.resources
  pub leases : s'.leases ≡ s.leases
  pub revision : s'.revision ≡ s.revision
  pub version : s'.schema_version ≡ s.schema_version
  pub valid : validate_snapshot s' ≡ pass
  pub fixed : canonical_snapshot s' ≡ ok s'

-- A snapshot that canonical_snapshot accepts comes back with each material normalized by
-- normalize_json_value and everything else as it was: each material is then a value that JSON has,
-- without tuples, empty keys and floats that are not finite, the result passes validation, and
-- canonical_snapshot leaves the result as it is.
pub canonical_snapshot-Canonical :
    (s : ResourceLifecycleSnapshot) {s' : ResourceLifecycleSnapshot}
    → canonical_snapshot s ≡ ok s'
    → Canonical s s'
unfolding canonical_snapshot
canonical_snapshot-Canonical s h =
    let (rs, e, h) = >>=-eq-ok (traverse canonical_resource_record s.resources) _ h in
    let (ls, e', h) = >>=-eq-ok (traverse coerce_resource_lease s.leases) _ h in
    let normal : ResourceLifecycleSnapshot = record s { resources = rs; leases = ls } in
    let (valid, last) = >>-eq-ok (validate_snapshot normal) _ h in
    let again = traverse-twice canonical_resource_record canonical_record-twice s.resources e in
    let same = coerced_leases-eq s.leases e' in
    let again' : traverse coerce_resource_lease ls ≡ ok ls = rw same (e' ∙ ap ok same) in
    subst (Canonical s) (ok_injective last) record {
      materials = canonical_records-materials s.resources e;
      others = canonical_records-rest s.resources e;
      plain = records-Plain rs (canonical_records-Normal s.resources e);
      leases = same;
      revision = refl;
      version = refl;
      valid = valid;
      fixed =
          rw (again, canonical_snapshot)
            (rw (again', canonical_snapshot) (rw (valid, canonical_snapshot) refl));
    }

canonical_records-eq_self :
    (rs : List ResourceRecord) {rs' : List ResourceRecord}
    → traverse canonical_resource_record rs ≡ ok rs'
    → All Normal rs
    → rs' ≡ rs
unfolding traverse
canonical_records-eq_self [] h normal = sym (ok_injective h)
canonical_records-eq_self (r ∷ rs) h normal =
    let (r', first, rest) = >>=-eq-ok (canonical_resource_record r) _ h in
    let (rs', more, last) = >>=-eq-ok (traverse canonical_resource_record rs) _ rest in
    let c = canonical_resource_record-CanonicalRecord r r' first in
    let kept : r'.material ≡ r.material = ok_injective (sym c.material ∙ normal.0) in
    let here : r' ≡ r = c.rest ∙ ap (λ m. record r { material = m }) kept in
    sym (ok_injective last) ∙ cc (here, canonical_records-eq_self rs more normal.1)

-- A snapshot of normal records comes back as it was.
pub canonical_snapshot-eq_self :
    (s : ResourceLifecycleSnapshot) {s' : ResourceLifecycleSnapshot}
    → canonical_snapshot s ≡ ok s'
    → All Normal s.resources
    → s' ≡ s
unfolding canonical_snapshot
canonical_snapshot-eq_self s h normal =
    let (rs, e, h) = >>=-eq-ok (traverse canonical_resource_record s.resources) _ h in
    let (ls, e', h) = >>=-eq-ok (traverse coerce_resource_lease s.leases) _ h in
    let (_, last) = >>-eq-ok (validate_snapshot (record s { resources = rs; leases = ls })) _ h in
    cc (last, canonical_records-eq_self s.resources e normal, coerced_leases-eq s.leases e')

pub canonical_snapshot-Normal :
    (s : ResourceLifecycleSnapshot) {s' : ResourceLifecycleSnapshot}
    → canonical_snapshot s ≡ ok s'
    → All Normal s'.resources
unfolding canonical_snapshot
canonical_snapshot-Normal s h =
    let (rs, e, h) = >>=-eq-ok (traverse canonical_resource_record s.resources) _ h in
    let (ls, e', h) = >>=-eq-ok (traverse coerce_resource_lease s.leases) _ h in
    let (_, last) = >>-eq-ok (validate_snapshot (record s { resources = rs; leases = ls })) _ h in
    subst (λ (x : ResourceLifecycleSnapshot). All Normal x.resources) (ok_injective last)
      (canonical_records-Normal s.resources e)
