-- ===== src/Lifecycle/Codec.antt =====
-- The JSON form of records, leases, bundles and snapshots of syvert/resource_lifecycle.py.
pub mod RoundTrip
pub mod Canonical
pub mod Normal
use syvert.Common.{
  ℕ, String, Bool, true, false, not, ◌&&◌, ◌||◌, Option, none, some, List, [], ◌∷◌, map, is_empty,
  Result, ok, err, contract, Check, pass, require, traverse, ◌>>=◌, ◌>>◌, if◌then◌else◌,
}
use syvert.Json.{
  Value, Items, Fields, null, number, text, arr, obj, no_fields, field, item, has_key, items,
  item_list,
}
use syvert.Lifecycle.Types.{
  ResourceRecord, ResourceBundle, ResourceLease, ResourceLifecycleSnapshot, account_slot,
  proxy_slot,
}
use syvert.Lifecycle.Records.{
  normalize_resource_material, validate_resource_record, validate_resource_lease,
  validate_resource_bundle,
}
use syvert.Lifecycle.Snapshot.{validate_snapshot}

-- `require_contract_non_empty_string` of a JSON value
unfoldable pub require_contract_text : Value → Result String
require_contract_text (text s) = do require (not (is_empty s)) contract; ok s
require_contract_text _ = err contract

-- `require_non_negative_int`
unfoldable pub require_non_negative_int : Value → Result ℕ
require_non_negative_int (number n) = ok n
require_non_negative_int _ = err contract

abbrev list_of : Value → Result (List Value)
list_of (arr vs) = ok (item_list vs)
list_of _ = err contract

unfoldable pub resource_record_to_dict : ResourceRecord → Result Value
unfolding validate_resource_record
resource_record_to_dict r = do
  validate_resource_record r
  material ← normalize_resource_material r.material
  ok (
      obj (
        field "resource_id" (text r.resource_id) (
          field "resource_type" (text r.resource_type)
            (field "status" (text r.status) (field "material" material no_fields)))))

record_from_fields : Fields → Result ResourceRecord
unfolding require_contract_text item
record_from_fields fs = do
  resource_id ← require_contract_text (item "resource_id" fs)
  resource_type ← require_contract_text (item "resource_type" fs)
  status ← require_contract_text (item "status" fs)
  material ← normalize_resource_material (item "material" fs)
  ok (record {
    resource_id = resource_id;
    resource_type = resource_type;
    status = status;
    material = material;
  })

unfoldable pub resource_record_from_dict : Value → Result ResourceRecord
unfolding record_from_fields validate_resource_record
resource_record_from_dict (obj fs) = do r ← record_from_fields fs; validate_resource_record r; ok r
resource_record_from_dict _ = err contract

abbrev texts : List String → Value
texts ss = arr (items (map text ss))

abbrev optional_text : Option String → Value
optional_text none = null
optional_text (some s) = text s

-- The three release fields are written only on a settled lease.
release_fields : ResourceLease → Fields
release_fields lease = elim lease.released_at [
  | none ↦ no_fields
  | some at ↦ field "released_at" (text at) (
      field "target_status_after_release" (optional_text lease.target_status_after_release)
        (field "release_reason" (optional_text lease.release_reason) no_fields))
]

unfoldable pub resource_lease_to_dict : ResourceLease → Result Value
unfolding validate_resource_lease release_fields
resource_lease_to_dict lease = do
  validate_resource_lease lease
  ok (
      obj (
        field "lease_id" (text lease.lease_id) (
          field "bundle_id" (text lease.bundle_id) (
            field "task_id" (text lease.task_id) (
              field "adapter_key" (text lease.adapter_key) (
                field "capability" (text lease.capability) (
                  field "resource_ids" (texts lease.resource_ids)
                    (field "acquired_at" (text lease.acquired_at) (release_fields lease)))))))))

-- released_at, target_status_after_release and release_reason
abbrev Settlement : Type 0
Settlement = Option String × Option String × Option String

settlement_from : Fields → Result Settlement
unfolding require_contract_text item has_key
settlement_from fs =
    let a = has_key "released_at" fs in
    let b = has_key "target_status_after_release" fs in
    let c = has_key "release_reason" fs in
    if a && (b && c)
    then (do
      released_at ← require_contract_text (item "released_at" fs)
      target ← require_contract_text (item "target_status_after_release" fs)
      reason ← require_contract_text (item "release_reason" fs)
      ok (some released_at, some target, some reason))
    else if a || (b || c)
    then err contract
    else ok (none, none, none)

lease_from_fields : Fields → Result ResourceLease
unfolding require_contract_text item item_list traverse settlement_from
lease_from_fields fs = do
  raw_resource_ids ← list_of (item "resource_ids" fs)
  (released_at, target, reason) ← settlement_from fs
  lease_id ← require_contract_text (item "lease_id" fs)
  bundle_id ← require_contract_text (item "bundle_id" fs)
  task_id ← require_contract_text (item "task_id" fs)
  adapter_key ← require_contract_text (item "adapter_key" fs)
  capability ← require_contract_text (item "capability" fs)
  resource_ids ← traverse require_contract_text raw_resource_ids
  acquired_at ← require_contract_text (item "acquired_at" fs)
  ok (record {
    lease_id = lease_id;
    bundle_id = bundle_id;
    task_id = task_id;
    adapter_key = adapter_key;
    capability = capability;
    resource_ids = resource_ids;
    acquired_at = acquired_at;
    released_at = released_at;
    target_status_after_release = target;
    release_reason = reason;
  })

unfoldable pub resource_lease_from_dict : Value → Result ResourceLease
unfolding lease_from_fields validate_resource_lease
resource_lease_from_dict (obj fs) = do
  lease ← lease_from_fields fs
  validate_resource_lease lease
  ok lease
resource_lease_from_dict _ = err contract

-- `if bundle.account is not None: payload["account"] = …`
slot_field : String → Option ResourceRecord → Fields → Result Fields
unfolding resource_record_to_dict
slot_field slot none rest = ok rest
slot_field slot (some r) rest = do v ← resource_record_to_dict r; ok (field slot v rest)

unfoldable pub resource_bundle_to_dict : ResourceBundle → Result Value
unfolding slot_field validate_resource_bundle
resource_bundle_to_dict b = do
  validate_resource_bundle b
  proxy ← slot_field proxy_slot b.proxy no_fields
  slots ← slot_field account_slot b.account proxy
  ok (
      obj (
        field "bundle_id" (text b.bundle_id) (
          field "lease_id" (text b.lease_id) (
            field "task_id" (text b.task_id) (
              field "adapter_key" (text b.adapter_key) (
                field "capability" (text b.capability) (
                  field "requested_slots" (texts b.requested_slots)
                    (field "acquired_at" (text b.acquired_at) slots))))))))

unfoldable pub snapshot_to_dict : ResourceLifecycleSnapshot → Result Value
unfolding validate_snapshot resource_record_to_dict resource_lease_to_dict traverse
snapshot_to_dict s = do
  validate_snapshot s
  resources ← traverse resource_record_to_dict s.resources
  leases ← traverse resource_lease_to_dict s.leases
  ok (
      obj (
        field "schema_version" (text s.schema_version) (
          field "revision" (number s.revision) (
            field "resources" (arr (items resources))
              (field "leases" (arr (items leases)) no_fields)))))

snapshot_from_fields : Fields → Result ResourceLifecycleSnapshot
unfolding resource_record_from_dict resource_lease_from_dict require_non_negative_int item item_list
snapshot_from_fields fs = do
  raw_resources ← list_of (item "resources" fs)
  raw_leases ← list_of (item "leases" fs)
  schema_version ← require_contract_text (item "schema_version" fs)
  revision ← require_non_negative_int (item "revision" fs)
  resources ← traverse resource_record_from_dict raw_resources
  leases ← traverse resource_lease_from_dict raw_leases
  ok (record {
    schema_version = schema_version;
    revision = revision;
    resources = resources;
    leases = leases;
  })

unfoldable pub snapshot_from_dict : Value → Result ResourceLifecycleSnapshot
unfolding snapshot_from_fields validate_snapshot
snapshot_from_dict (obj fs) = do s ← snapshot_from_fields fs; validate_snapshot s; ok s
snapshot_from_dict _ = err contract

unfoldable pub canonical_resource_record : ResourceRecord → Result ResourceRecord
unfolding validate_resource_record
canonical_resource_record r = do
  material ← normalize_resource_material r.material
  let normalized : ResourceRecord = record r { material = material }
  validate_resource_record normalized
  ok normalized

-- `coerce_resource_lease` of a lease
unfoldable pub coerce_resource_lease : ResourceLease → Result ResourceLease
unfolding validate_resource_lease
coerce_resource_lease lease = do validate_resource_lease lease; ok lease

-- `canonical_snapshot` of a snapshot
unfoldable pub canonical_snapshot : ResourceLifecycleSnapshot → Result ResourceLifecycleSnapshot
unfolding canonical_resource_record coerce_resource_lease validate_snapshot traverse
canonical_snapshot s = do
  resources ← traverse canonical_resource_record s.resources
  leases ← traverse coerce_resource_lease s.leases
  let normalized : ResourceLifecycleSnapshot = record s { resources = resources; leases = leases }
  validate_snapshot normalized
  ok normalized
