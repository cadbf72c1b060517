-- ===== src/Store/Seeding.antt =====
-- `seedable_resource_records` of syvert/resource_lifecycle.py and `seed_resources` of
-- syvert/resource_lifecycle_store.py.
pub mod Stored
use syvert.Common.{
  suc, String, Bool, true, false, ◌&&◌, Option, none, some, List, [], ◌∷◌, ◌==◌, has, Dict, get,
  put, Result, ok, err, contract, state_conflict, require, forbid, ◌>>=◌, ◌>>◌, sort_by,
  if◌then◌else◌,
}
use syvert.Json.{same_value}
use syvert.Lifecycle.Types.{ResourceRecord, ResourceLifecycleSnapshot, by_id}
use syvert.Lifecycle.Codec.{canonical_resource_record}
use syvert.Lifecycle.Selection.{id_le}
use syvert.Lifecycle.Snapshot.{values}
use syvert.Store.Disk.{SnapshotFile, Io}
use syvert.Store.LifecycleStore.{load_snapshot, write_snapshot_locked}

distinct_records : List String → List ResourceRecord → Result (List ResourceRecord)
distinct_records seen [] = ok []
distinct_records seen (r ∷ rs) = do
  normalized ← canonical_resource_record r
  forbid (has r.resource_id seen) contract
  rest ← distinct_records (normalized.resource_id ∷ seen) rs
  ok (normalized ∷ rest)

unfoldable pub seedable_resource_records : List ResourceRecord → Result (List ResourceRecord)
unfolding distinct_records
seedable_resource_records records = do
  normalized ← distinct_records [] records
  ok (sort_by id_le normalized)

-- `==` of the frozen data class
same_record : ResourceRecord → ResourceRecord → Bool
same_record a b =
    a.resource_id == b.resource_id
    && (a.resource_type == b.resource_type
        && (a.status == b.status && same_value a.material b.material))

-- `existing_by_id` and `changed` after the loop
record Seeded : Type 0 where
  existing : Dict ResourceRecord
  changed : Bool

seed_each : Seeded → List ResourceRecord → Result Seeded
unfolding same_record
seed_each acc [] = ok acc
seed_each acc (r ∷ rs) = elim (get r.resource_id acc.existing) [
  | none ↦ seed_each (record { existing = put r.resource_id r acc.existing; changed = true }) rs
  | some old ↦ (do
    require (same_record old r) state_conflict
    seed_each (record acc { existing = put r.resource_id r acc.existing }) rs)
]

-- What `seed_resources` writes, if anything: `none` where nothing changed.
seed_plan :
    Io
    → List ResourceRecord
    → SnapshotFile
    → Result (ResourceLifecycleSnapshot × Option ResourceLifecycleSnapshot)
unfolding seed_each
seed_plan io records file = do
  seeded ← seedable_resource_records records
  require io.snapshot_lock state_conflict
  current ← load_snapshot file
  after ← seed_each (record { existing = by_id current.resources; changed = false }) seeded
  let updated : ResourceLifecycleSnapshot = record current {
    revision = suc current.revision;
    resources = sort_by id_le (values after.existing);
  }
  ok (current, if after.changed then some updated else none)

unfoldable pub seed_resources :
    Io → List ResourceRecord → SnapshotFile → Result (List ResourceRecord) × SnapshotFile
unfolding seed_plan
seed_resources io records file = elim (seed_plan io records file) [
  | err e ↦ (err e, file)
  | ok (current, none) ↦ (ok current.resources, file)
  | ok (current, some updated) ↦
      (let (written, file') = write_snapshot_locked io.snapshot_write updated file in
        ((do written; ok updated.resources), file'))
]
