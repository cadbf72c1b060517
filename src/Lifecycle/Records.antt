-- ===== src/Lifecycle/Records.antt =====
-- The validators of one record, lease or bundle of syvert/resource_lifecycle.py.
use syvert.Common.{
  String, true, false, not, ◌||◌, Option, none, some, List, [], ◌∷◌, ◌==◌, ltb, is_empty, is_some,
  has, Error, Result, err, contract, invalid_request, Check, pass, require, forbid, each, ◌>>=◌,
  ◌>>◌,
}
use syvert.Json.{Value, normalize_json_value}
use syvert.Time.{parse_lifecycle_time}
use syvert.Lifecycle.Types.{
  ResourceRecord, ResourceBundle, ResourceLease, in_use, resource_types, resource_statuses,
  release_target_statuses, bundle_slot,
}

-- `require_contract_non_empty_string` and its siblings, which differ in what they raise
unfoldable pub require_non_empty : Error → String → Check
require_non_empty e s = require (not (is_empty s)) e

-- A `TaskRecordContractError` is raised again as a `ResourceLifecycleContractError`.
abbrev pub normalize_resource_material : Value → Result Value
normalize_resource_material = normalize_json_value

unfoldable pub validate_resource_record : ResourceRecord → Check
unfolding require_non_empty
validate_resource_record r = do
  require_non_empty contract r.resource_id
  require (has r.resource_type resource_types) contract
  require (has r.status resource_statuses) contract
  m ← normalize_resource_material r.material
  pass

-- The loop of `validate_unique_non_empty_strings`.
unfoldable pub unique_from : List String → List String → Check
unfolding require_non_empty
unique_from seen [] = pass
unique_from seen (v ∷ vs) = do
  require_non_empty contract v
  forbid (has v seen) contract
  unique_from (v ∷ seen) vs

unfoldable pub validate_unique_non_empty_strings : List String → Check
unfolding unique_from
validate_unique_non_empty_strings [] = err contract
validate_unique_non_empty_strings (v ∷ vs) = unique_from [] (v ∷ vs)

-- `lease.target_status_after_release not in RELEASE_TARGET_STATUSES`
unfoldable pub check_target : Option String → Check
check_target none = err contract
check_target (some target) = require (has target release_target_statuses) contract

unfoldable pub check_reason : Option String → Check
unfolding require_non_empty
check_reason none = err contract
check_reason (some reason) = require_non_empty contract reason

-- The end of `validate_resource_lease`, by `released_at`.
unfoldable pub validate_settlement : ResourceLease → Option String → Check
unfolding check_target check_reason
validate_settlement lease none =
    forbid (is_some lease.target_status_after_release || is_some lease.release_reason) contract
validate_settlement lease (some released_at) = do
  acquired ← parse_lifecycle_time lease.acquired_at
  released ← parse_lifecycle_time released_at
  forbid (ltb released acquired) contract
  check_target lease.target_status_after_release
  check_reason lease.release_reason

unfoldable pub validate_resource_lease : ResourceLease → Check
unfolding require_non_empty validate_unique_non_empty_strings validate_settlement
validate_resource_lease lease = do
  require_non_empty contract lease.lease_id
  require_non_empty contract lease.bundle_id
  require_non_empty contract lease.task_id
  require_non_empty contract lease.adapter_key
  require_non_empty contract lease.capability
  validate_unique_non_empty_strings lease.resource_ids
  acquired ← parse_lifecycle_time lease.acquired_at
  validate_settlement lease lease.released_at

-- The loop of `validate_requested_slots`.
unfoldable pub slots_from : List String → List String → Check
unfolding require_non_empty
slots_from seen [] = pass
slots_from seen (slot ∷ slots) = do
  require_non_empty invalid_request slot
  forbid (has slot seen) invalid_request
  require (has slot resource_types) invalid_request
  slots_from (slot ∷ seen) slots

unfoldable pub validate_requested_slots : List String → Check
unfolding slots_from
validate_requested_slots [] = err invalid_request
validate_requested_slots (slot ∷ slots) = slots_from [] (slot ∷ slots)

-- One round of the loop of `validate_resource_bundle`.
unfoldable pub validate_bundle_slot : ResourceBundle → String → Check
unfolding validate_resource_record bundle_slot
validate_bundle_slot b slot = elim (has slot b.requested_slots) [
  | true ↦ elim (bundle_slot b slot) [
    | none ↦ err contract
    | some r ↦ (do
      validate_resource_record r
      require (r.resource_type == slot) contract
      require (r.status == in_use) contract)
  ]
  | false ↦ forbid (is_some (bundle_slot b slot)) contract
]

unfoldable pub validate_resource_bundle : ResourceBundle → Check
unfolding require_non_empty validate_requested_slots validate_bundle_slot each
validate_resource_bundle b = do
  require_non_empty contract b.bundle_id
  require_non_empty contract b.lease_id
  require_non_empty contract b.task_id
  require_non_empty contract b.adapter_key
  require_non_empty contract b.capability
  validate_requested_slots b.requested_slots
  acquired ← parse_lifecycle_time b.acquired_at
  each (validate_bundle_slot b) resource_types
