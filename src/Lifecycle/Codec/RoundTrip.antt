-- ===== src/Lifecycle/Codec/RoundTrip.antt =====
-- The writers and the readers of syvert/resource_lifecycle.py, one after the other.
use syvert.Common.{
  Result, ℕ, String, ◌≡◌, refl, ap, ◌∙◌, true, false, Option, none, some, Option-cases, Bool-cases,
  inl, inr, List, [], ◌∷◌, map, arith, ◌==◌, ltb, eq_iff, is_empty, has, ok, Error, contract, pass,
  require, forbid, traverse, >>=-eq-ok, >>-eq-ok, require-eq-pass, ok_injective,
}
use syvert.Json.{Value, text, items, item_list, item_list-items}
use syvert.Json.Normal.{normalize-normal}
use syvert.Time.{parse_lifecycle_time}
use syvert.Lifecycle.Types.{
  ResourceRecord, ResourceLease, ResourceLifecycleSnapshot, resource_types, resource_statuses,
  lifecycle_version, release_target_statuses,
}
use syvert.Lifecycle.Records.{
  normalize_resource_material, require_non_empty, validate_resource_record, validate_resource_lease,
  unique_from, validate_unique_non_empty_strings, check_target, check_reason, validate_settlement,
}
use syvert.Lifecycle.Snapshot.{validate_snapshot}
use syvert.Lifecycle.Snapshot.Materials.{validate_snapshot-same}
use syvert.Lifecycle.Codec.Canonical.{canonical_resource_record-CanonicalRecord, coerced_leases-eq}
use syvert.Lifecycle.Codec.{
  require_contract_text, resource_record_to_dict, resource_record_from_dict, resource_lease_to_dict,
  resource_lease_from_dict, snapshot_to_dict, snapshot_from_dict, canonical_resource_record,
  coerce_resource_lease, canonical_snapshot,
}

nonempty_of_has :
    (k : String) (xs : List String) → has "" xs ≡ false → has k xs ≡ true → is_empty k ≡ false
nonempty_of_has k xs h g = elim (Bool-cases (is_empty k)) [
  | inl e ↦ cc (ap (λ j. has j xs) ((eq_iff k "").0 e))
  | inr e ↦ e
]

parse_empty : (t : ℕ) → parse_lifecycle_time "" ≡ ok t → is_empty "" ≡ false
unfolding parse_lifecycle_time
parse_empty t h = cc

nonempty_of_parse : (k : String) {t : ℕ} → parse_lifecycle_time k ≡ ok t → is_empty k ≡ false
nonempty_of_parse k {t} h = elim (Bool-cases (is_empty k)) [
  | inl e ↦ (let p = (eq_iff k "").0 e in rw p (parse_empty t (rw p at h)))
  | inr e ↦ e
]

nonempty_of_require : (e : Error) (k : String) → require_non_empty e k ≡ pass → is_empty k ≡ false
unfolding require_non_empty
nonempty_of_require e k h = ground arith

contract_text : (k : String) → is_empty k ≡ false → require_contract_text (text k) ≡ ok k
unfolding require_contract_text
contract_text k h = rw h

-- What a valid record has.
record RecordParts (r : ResourceRecord) : Type 0 where
  id : is_empty r.resource_id ≡ false
  type_ : is_empty r.resource_type ≡ false
  status : is_empty r.status ≡ false
  normal : Value
  material : normalize_resource_material r.material ≡ ok normal

record_parts : (r : ResourceRecord) → validate_resource_record r ≡ pass → RecordParts r
unfolding validate_resource_record
record_parts r h =
    let (id, h) = >>-eq-ok (require_non_empty contract r.resource_id) _ h in
    let (type_, h) = >>-eq-ok (require (has r.resource_type resource_types) contract) _ h in
    let (status, h) = >>-eq-ok (require (has r.status resource_statuses) contract) _ h in
    let (m, e, _) = >>=-eq-ok (normalize_resource_material r.material) _ h in
    record {
      id = nonempty_of_require contract r.resource_id id;
      type_ =
          nonempty_of_has r.resource_type resource_types (unfold has in refl)
            (require-eq-pass _ contract type_);
      status =
          nonempty_of_has r.status resource_statuses (unfold has in refl)
            (require-eq-pass _ contract status);
      normal = m;
      material = e;
    }

-- The record with its material normalized is valid as well.
normal_record-valid :
    (r : ResourceRecord) (m : Value)
    → validate_resource_record r ≡ pass
    → normalize_resource_material m ≡ ok m
    → validate_resource_record (record r { material = m }) ≡ pass
unfolding validate_resource_record
normal_record-valid r m h normal =
    let (id, h) = >>-eq-ok (require_non_empty contract r.resource_id) _ h in
    let (type_, h) = >>-eq-ok (require (has r.resource_type resource_types) contract) _ h in
    let (status, h) = >>-eq-ok (require (has r.status resource_statuses) contract) _ h in
    rw (id, type_, status, normal, validate_resource_record) refl

-- What a writer writes is read back as the canonical form.
resource_record-round_trip :
    (r : ResourceRecord) {v : Value}
    → resource_record_to_dict r ≡ ok v
    → (r' : ResourceRecord) × (canonical_resource_record r ≡ ok r')
      × (resource_record_from_dict v ≡ ok r')
unfolding resource_record_to_dict resource_record_from_dict canonical_resource_record
resource_record-round_trip r h =
    let (valid, h) = >>-eq-ok (validate_resource_record r) _ h in
    let p = record_parts r valid in
    let again = normalize-normal r.material p.material in
    let r' : ResourceRecord = record r { material = p.normal } in
    let valid' : validate_resource_record r' ≡ pass = normal_record-valid r p.normal valid again in
    (
      r',
      rw (p.material, canonical_resource_record) (rw valid' refl),
      rw (← ok_injective (rw p.material at h))
          (ground (arith, p.id, p.type_, p.status, again, valid')),
    )

unique_from-texts :
    (seen ids : List String)
    → unique_from seen ids ≡ pass
    → traverse require_contract_text (map text ids) ≡ ok ids
unfolding unique_from traverse
unique_from-texts seen [] h = refl
unique_from-texts seen (id ∷ ids) h =
    let (first, h) = >>-eq-ok (require_non_empty contract id) _ h in
    let (_, rest) = >>-eq-ok (forbid (has id seen) contract) _ h in
    ground (
      arith,
      contract_text id (nonempty_of_require contract id first),
      unique_from-texts (id ∷ seen) ids rest,
    )

unique_texts :
    (ids : List String)
    → validate_unique_non_empty_strings ids ≡ pass
    → traverse require_contract_text (map text ids) ≡ ok ids
unfolding validate_unique_non_empty_strings
unique_texts [] h = cc
unique_texts (id ∷ ids) h = unique_from-texts [] (id ∷ ids) h

-- The release fields of a valid lease: none of them, or all of them and none empty.
data Settled (lease : ResourceLease) : Type 0 where
  active :
      lease.released_at ≡ none
      → lease.target_status_after_release ≡ none
      → lease.release_reason ≡ none
      → Settled lease
  settled :
      (at target reason : String)
      → lease.released_at ≡ some at
      → lease.target_status_after_release ≡ some target
      → lease.release_reason ≡ some reason
      → is_empty at ≡ false
      → is_empty target ≡ false
      → is_empty reason ≡ false
      → Settled lease

settled_parts :
    (lease : ResourceLease) (released_at : Option String)
    → lease.released_at ≡ released_at
    → validate_settlement lease released_at ≡ pass
    → Settled lease
unfolding validate_settlement
settled_parts lease none e h = active e (ground arith) (ground arith)
settled_parts lease (some at) e h =
    let (acquired, _, h) = >>=-eq-ok (parse_lifecycle_time lease.acquired_at) _ h in
    let (released, parsed, h) = >>=-eq-ok (parse_lifecycle_time at) _ h in
    let (_, h) = >>-eq-ok (forbid (ltb released acquired) contract) _ h in
    let (t, r) =
      >>-eq-ok (check_target lease.target_status_after_release) (check_reason lease.release_reason)
        h in
    elim (Option-cases lease.target_status_after_release) [
      | inl no_target ↦ absurd (ground (arith, no_target, t))
      | inr (target, is_target) ↦ elim (Option-cases lease.release_reason) [
        | inl no_reason ↦ absurd (ground (arith, no_reason, r))
        | inr (reason, is_reason) ↦
            settled at target reason e is_target is_reason (nonempty_of_parse at parsed)
              (nonempty_of_has target release_target_statuses (unfold has in refl)
                (require-eq-pass _ contract (rw is_target at t)))
              (nonempty_of_require contract reason (rw is_reason at r))
      ]
    ]

record LeaseParts (lease : ResourceLease) : Type 0 where
  lease_id : is_empty lease.lease_id ≡ false
  bundle_id : is_empty lease.bundle_id ≡ false
  task_id : is_empty lease.task_id ≡ false
  adapter_key : is_empty lease.adapter_key ≡ false
  capability : is_empty lease.capability ≡ false
  resource_ids :
      traverse require_contract_text (item_list (items (map text lease.resource_ids)))
      ≡ ok lease.resource_ids
  acquired_at : is_empty lease.acquired_at ≡ false
  release : Settled lease

lease_parts : (lease : ResourceLease) → validate_resource_lease lease ≡ pass → LeaseParts lease
unfolding validate_resource_lease
lease_parts lease h =
    let (lease_id, h) = >>-eq-ok (require_non_empty contract lease.lease_id) _ h in
    let (bundle_id, h) = >>-eq-ok (require_non_empty contract lease.bundle_id) _ h in
    let (task_id, h) = >>-eq-ok (require_non_empty contract lease.task_id) _ h in
    let (adapter_key, h) = >>-eq-ok (require_non_empty contract lease.adapter_key) _ h in
    let (capability, h) = >>-eq-ok (require_non_empty contract lease.capability) _ h in
    let (ids, h) = >>-eq-ok (validate_unique_non_empty_strings lease.resource_ids) _ h in
    let (time, parsed, h) = >>=-eq-ok (parse_lifecycle_time lease.acquired_at) _ h in
    record {
      lease_id = nonempty_of_require contract lease.lease_id lease_id;
      bundle_id = nonempty_of_require contract lease.bundle_id bundle_id;
      task_id = nonempty_of_require contract lease.task_id task_id;
      adapter_key = nonempty_of_require contract lease.adapter_key adapter_key;
      capability = nonempty_of_require contract lease.capability capability;
      resource_ids = rw item_list-items (unique_texts lease.resource_ids ids);
      acquired_at = nonempty_of_parse lease.acquired_at parsed;
      release = settled_parts lease lease.released_at refl h;
    }

-- Whatever lease resource_lease_to_dict writes, active or settled, resource_lease_from_dict reads
-- back as it was.
pub resource_lease-round_trip :
    (lease : ResourceLease) {v : Value}
    → resource_lease_to_dict lease ≡ ok v
    → resource_lease_from_dict v ≡ ok lease
unfolding resource_lease_to_dict resource_lease_from_dict
resource_lease-round_trip lease h =
    let (valid, h) = >>-eq-ok (validate_resource_lease lease) _ h in
    let p = lease_parts lease valid in
    rw (← ok_injective h) (elim p.release [
      | active a t r ↦ ground (
        arith, a, t, r, p.lease_id, p.bundle_id, p.task_id, p.adapter_key, p.capability,
        p.resource_ids, p.acquired_at, valid,
      )
      | settled at target reason a t r na nt nr ↦ ground (
        arith, a, t, r, na, nt, nr, p.lease_id, p.bundle_id, p.task_id, p.adapter_key, p.capability,
        p.resource_ids, p.acquired_at, valid,
      )
    ])

nonempty_version :
    (s : ResourceLifecycleSnapshot) → validate_snapshot s ≡ pass → is_empty s.schema_version ≡ false
unfolding validate_snapshot
nonempty_version s h =
    let (version, _) = >>-eq-ok (require (s.schema_version == lifecycle_version) contract) _ h in
    rw ((eq_iff s.schema_version lifecycle_version).0 (require-eq-pass _ contract version))

resource_lease-coerced :
    (lease : ResourceLease) {v : Value}
    → resource_lease_to_dict lease ≡ ok v
    → (lease' : ResourceLease) × (coerce_resource_lease lease ≡ ok lease')
      × (resource_lease_from_dict v ≡ ok lease')
unfolding resource_lease_to_dict coerce_resource_lease
resource_lease-coerced lease h =
    let (valid, _) = >>-eq-ok (validate_resource_lease lease) _ h in
    (lease, rw valid refl, resource_lease-round_trip lease h)

-- If what `f` writes is read by `g` as what `c` makes of it, then so for lists.
traverse-through {ℓ κ} :
    {A : Type ℓ} {B : Type κ} (f : A → Result B) (c : A → Result A) (g : B → Result A)
    → ((a : A) (b : B) → f a ≡ ok b → (a' : A) × (c a ≡ ok a') × (g b ≡ ok a'))
    → (xs : List A) {ys : List B} → traverse f xs ≡ ok ys
    → (zs : List A) × (traverse c xs ≡ ok zs) × (traverse g ys ≡ ok zs)
unfolding traverse
traverse-through f c g through [] h = ([], refl, rw (← ok_injective h) refl)
traverse-through f c g through (x ∷ xs) h =
    let (y, first, rest) = >>=-eq-ok (f x) _ h in
    let (ys, more, last) = >>=-eq-ok (traverse f xs) _ rest in
    let (z, made, read) = through x y first in
    let (zs, mades, reads) = traverse-through f c g through xs more in
    (z ∷ zs, rw (made, mades) refl, rw (← ok_injective last) (rw (read, reads) refl))

-- Whatever snapshot_to_dict writes of a snapshot, snapshot_from_dict reads back as the canonical
-- form that canonical_snapshot gives the snapshot.
pub snapshot-round_trip :
    (s : ResourceLifecycleSnapshot) {v : Value}
    → snapshot_to_dict s ≡ ok v
    → (s' : ResourceLifecycleSnapshot) × (canonical_snapshot s ≡ ok s')
      × (snapshot_from_dict v ≡ ok s')
unfolding snapshot_to_dict snapshot_from_dict canonical_snapshot
snapshot-round_trip s h =
    let (valid, h) = >>-eq-ok (validate_snapshot s) _ h in
    let (resources, wrote, h) = >>=-eq-ok (traverse resource_record_to_dict s.resources) _ h in
    let (leases, wrote', h) = >>=-eq-ok (traverse resource_lease_to_dict s.leases) _ h in
    let (rs, made, read) =
      traverse-through resource_record_to_dict canonical_resource_record resource_record_from_dict
        (λ r v. resource_record-round_trip r) s.resources wrote in
    let (ls, made', read') =
      traverse-through resource_lease_to_dict coerce_resource_lease resource_lease_from_dict
        (λ l v. resource_lease-coerced l) s.leases wrote' in
    let same : ls ≡ s.leases = coerced_leases-eq s.leases made' in
    let s' : ResourceLifecycleSnapshot = record s { resources = rs; leases = ls } in
    let valid' : validate_snapshot s' ≡ pass =
      ap (λ ls. validate_snapshot (record s { resources = rs; leases = ls })) same
      ∙ validate_snapshot-same canonical_resource_record
          (λ r r' e. let c = canonical_resource_record-CanonicalRecord r r' e in (c.rest, c.valid))
          s made valid in
    (
      s',
      rw (made, canonical_snapshot) (rw (made', canonical_snapshot) (rw valid' refl)),
      rw (← ok_injective h) (
          ground (
            arith,
            nonempty_version s valid,
            item_list-items resources,
            item_list-items leases,
            read,
            read',
            valid',
          )),
    )
