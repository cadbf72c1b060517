-- ===== src/Lifecycle/Transitions.antt =====
-- The moves of resources between statuses, and the lookup of leases, in
-- syvert/resource_lifecycle.py.
pub mod Moves
use syvert.Common.{
  String, Bool, true, false, not, ◌&&◌, Option, none, some, List, [], ◌∷◌, map, ◌==◌, has, Dict,
  get, Result, ok, err, state_conflict, lease_mismatch, key_error, Check, require, traverse, ◌>>=◌,
  ◌>>◌, if◌then◌else◌,
}
use syvert.Lifecycle.Types.{
  ResourceRecord, ResourceLease, ResourceLifecycleSnapshot, available, in_use,
}

abbrev pub ids_of : List ResourceRecord → List String
ids_of = map (λ r. r.resource_id)

unfoldable pub is_subset : List String → List String → Bool
is_subset [] ys = true
is_subset (x ∷ xs) ys = has x ys && is_subset xs ys

-- One record that is in a loop of either transition: it must be at `from`, and goes to `to`.
unfoldable pub move_record : String → String → List String → ResourceRecord → Result ResourceRecord
move_record from to ids r =
    if has r.resource_id ids
    then (do require (r.status == from) state_conflict; ok (record r { status = to }))
    else ok r

unfoldable pub in_use_ids : List ResourceRecord → List String
in_use_ids [] = []
in_use_ids (r ∷ rs) =
    let rest = in_use_ids rs in if r.status == in_use then r.resource_id ∷ rest else rest

-- The set of selected ids differs from its part that is IN_USE just when it is no subset of that.
unfoldable pub apply_acquire_transition :
    List ResourceRecord → List String → Result (List ResourceRecord)
unfolding move_record traverse in_use_ids is_subset
apply_acquire_transition records selected_ids = do
  updated ← traverse (move_record available in_use selected_ids) records
  require (is_subset selected_ids (in_use_ids updated)) state_conflict
  ok updated

-- `released_ids` is the part of `resource_ids` that the records have.
unfoldable pub apply_release_transition :
    List ResourceRecord → List String → String → Result (List ResourceRecord)
unfolding move_record traverse is_subset
apply_release_transition records resource_ids target = do
  updated ← traverse (move_record in_use target resource_ids) records
  require (is_subset resource_ids (ids_of records)) state_conflict
  ok updated

unfoldable pub find_lease : List ResourceLease → String → Option ResourceLease
find_lease [] lease_id = none
find_lease (lease ∷ leases) lease_id =
    if lease.lease_id == lease_id then some lease else find_lease leases lease_id

unfoldable pub require_lease : ResourceLifecycleSnapshot → String → Result ResourceLease
unfolding find_lease
require_lease s lease_id = elim (find_lease s.leases lease_id) [
  | none ↦ err lease_mismatch
  | some lease ↦ ok lease
]

-- `settled if existing.lease_id == lease_id else existing` over the leases
unfoldable pub replace_lease : String → ResourceLease → List ResourceLease → List ResourceLease
replace_lease lease_id settled [] = []
replace_lease lease_id settled (lease ∷ leases) =
    (if lease.lease_id == lease_id then settled else lease) ∷ replace_lease lease_id settled leases

unfoldable pub lease_resource_id : Dict ResourceRecord → String → Result String
lease_resource_id resources id = elim (get id resources) [
  | none ↦ err key_error
  | some r ↦ ok r.resource_id
]

unfoldable pub releasable_lease_signature :
    ResourceLease → Dict ResourceRecord → Result (String × List String)
unfolding lease_resource_id traverse
releasable_lease_signature lease resources = do
  ids ← traverse (lease_resource_id resources) lease.resource_ids
  ok (lease.bundle_id, ids)

same_texts : List String → List String → Bool
same_texts [] [] = true
same_texts (x ∷ xs) (y ∷ ys) = x == y && same_texts xs ys
same_texts _ _ = false

unfoldable pub same_releasable : String × List String → String × List String → Bool
unfolding same_texts
same_releasable (a, xs) (b, ys) = a == b && same_texts xs ys
