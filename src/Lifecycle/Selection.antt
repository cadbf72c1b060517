-- ===== src/Lifecycle/Selection.antt =====
-- Choosing a resource for each slot, in syvert/resource_lifecycle.py.
pub mod Chosen
use syvert.Common.{
  String, Bool, true, false, not, ◌&&◌, none, some, List, [], ◌∷◌, ◌++◌, ◌==◌, text_le, is_empty,
  is_some, has, Dict, get, put, Result, ok, err, unavailable, state_conflict, key_error, Check,
  pass, require, forbid, each, traverse, ◌>>=◌, ◌>>◌, sort_by, keep, if◌then◌else◌,
}
use syvert.Json.{Value, text, obj, item}
use syvert.Lifecycle.Types.{
  ResourceRecord, ResourceLease, ResourceLifecycleSnapshot, available, in_use, account_slot,
  resource_types, managed_account_adapter_key_field,
}

-- the resources of the leases that are not released
unfoldable pub active_resource_ids : List ResourceLease → List String
active_resource_ids [] = []
active_resource_ids (lease ∷ leases) =
    let rest = active_resource_ids leases in
    if is_some lease.released_at then rest else lease.resource_ids ++ rest

is_managed_by : String → Value → Bool
is_managed_by adapter_key (text s) = not (is_empty s) && s == adapter_key
is_managed_by adapter_key _ = false

material_managed_by : String → Value → Bool
unfolding is_managed_by item
material_managed_by adapter_key (obj fs) =
    is_managed_by adapter_key (item managed_account_adapter_key_field fs)
material_managed_by adapter_key _ = false

unfoldable pub resource_is_slot_compatible : ResourceRecord → String → String → Bool
unfolding material_managed_by
resource_is_slot_compatible r slot adapter_key =
    if slot == account_slot then material_managed_by adapter_key r.material else true

-- in `resources_by_type[slot]`, and compatible
unfoldable pub is_candidate : String → String → ResourceRecord → Bool
unfolding resource_is_slot_compatible
is_candidate slot adapter_key r =
    r.status == available
    && (r.resource_type == slot && resource_is_slot_compatible r slot adapter_key)

abbrev pub id_le : ResourceRecord → ResourceRecord → Bool
id_le a b = text_le a.resource_id b.resource_id

unfoldable pub candidates : String → String → List ResourceRecord → List ResourceRecord
unfolding is_candidate sort_by keep
candidates slot adapter_key resources =
    sort_by id_le (keep (is_candidate slot adapter_key) resources)

-- The first candidate of a slot, on its way to IN_USE.
unfoldable pub take_candidate : List String → List ResourceRecord → Result ResourceRecord
take_candidate active [] = err unavailable
take_candidate active (r ∷ rs) = do
  forbid (has r.resource_id active) state_conflict
  ok (record r { status = in_use })

-- `resources_by_type` has a list for each of `RESOURCE_TYPES`, and an AVAILABLE record is put into
-- that of its type.
unfoldable pub check_type : ResourceRecord → Check
unfolding has
check_type r =
    if r.status == available then require (has r.resource_type resource_types) key_error else pass

unfoldable pub select_slots :
    List ResourceRecord
    → List String
    → String
    → Dict ResourceRecord
    → List String
    → Result (Dict ResourceRecord)
unfolding candidates take_candidate has
select_slots resources active adapter_key selected [] = ok selected
select_slots resources active adapter_key selected (slot ∷ slots) = do
  require (has slot resource_types) key_error
  r ← take_candidate active (candidates slot adapter_key resources)
  select_slots resources active adapter_key (put slot r selected) slots

unfoldable pub select_available_resources :
    ResourceLifecycleSnapshot → List String → String → Result (Dict ResourceRecord)
unfolding select_slots active_resource_ids each check_type
select_available_resources s slots adapter_key = do
  each check_type s.resources
  select_slots s.resources (active_resource_ids s.leases) adapter_key [] slots

unfoldable pub slot_id : Dict ResourceRecord → String → Result (String × String)
slot_id selected slot = elim (get slot selected) [
  | none ↦ err key_error
  | some r ↦ ok (slot, r.resource_id)
]

unfoldable pub selected_resources_signature :
    List String → Dict ResourceRecord → Result (List (String × String))
unfolding slot_id traverse
selected_resources_signature slots selected = traverse (slot_id selected) slots

-- `==` of two such tuples
unfoldable pub same_signature : List (String × String) → List (String × String) → Bool
same_signature [] [] = true
same_signature ((a, b) ∷ xs) ((c, d) ∷ ys) = (a == c && b == d) && same_signature xs ys
same_signature _ _ = false
