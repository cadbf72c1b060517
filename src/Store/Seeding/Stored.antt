-- ===== src/Store/Seeding/Stored.antt =====
-- What `seed_resources` leaves in the snapshot's file.
use syvert.Common.{
  All, All-sort_by, subst, Option-cases, forbid, contract, has, get, put, Dict, String, ◌==◌, [],
  ◌∷◌, ◌≡◌, refl, sym, ap, ◌∙◌, Bool, Bool-cases, Option, none, some, inl, inr, List, arith, Error,
  ok, err, state_conflict, require, ◌>>◌, >>=-eq-ok, >>-eq-ok, ok_injective, Result-cases,
}
use syvert.Lifecycle.Types.{ResourceRecord, ResourceLifecycleSnapshot, collect_by_id, by_id}
use syvert.Json.Normal.{normalize-normal}
use syvert.Lifecycle.Selection.{id_le}
use syvert.Lifecycle.Snapshot.{values}
use syvert.Lifecycle.Codec.{snapshot_to_dict, canonical_resource_record}
use syvert.Lifecycle.Codec.Canonical.{Normal, canonical_resource_record-CanonicalRecord}
use syvert.Lifecycle.Codec.Normal.{snapshot-round_trip_self}
use syvert.Store.LifecycleStore.Commit.{load_snapshot-Normal}
use syvert.Store.Disk.{SnapshotFile, Io}
use syvert.Store.LifecycleStore.{
  load_snapshot, check_revision, write_json_atomic, write_snapshot_locked,
}
use syvert.Store.Seeding.{
  Seeded, same_record, distinct_records, seedable_resource_records, seed_each, seed_plan,
  seed_resources,
}

write_snapshot_locked-failed :
    (writes : Bool) (s : ResourceLifecycleSnapshot) (file : SnapshotFile) {e : Error}
    → (write_snapshot_locked writes s file).0 ≡ err e
    → (write_snapshot_locked writes s file).1 ≡ file
unfolding write_snapshot_locked write_json_atomic
write_snapshot_locked-failed writes s file h = ground arith

write_snapshot_locked-stored :
    (writes : Bool) (s : ResourceLifecycleSnapshot) (file : SnapshotFile)
    → All Normal s.resources
    → (write_snapshot_locked writes s file).0 ≡ ok tt
    → load_snapshot (write_snapshot_locked writes s file).1 ≡ ok s
unfolding write_snapshot_locked write_json_atomic load_snapshot
write_snapshot_locked-stored writes s file normal h =
    elim (Result-cases (check_revision s file >> snapshot_to_dict s)) [
      | inr (e, p) ↦ absurd (ground (arith, h, p))
      | inl (v, p) ↦ elim (Bool-cases writes) [
        | inr q ↦ absurd (ground (arith, h, p, q))
        | inl q ↦
            (let (_, written) = >>-eq-ok (check_revision s file) _ p in
              ground (arith, h, p, q, snapshot-round_trip_self s written normal))
      ]
    ]

-- The snapshots in the file before and after a seeding that returned `records`.
pub record Seeding (before_file after_file : SnapshotFile) (records : List ResourceRecord)
    : Type 0 where
  pub before : ResourceLifecycleSnapshot
  pub found : load_snapshot before_file ≡ ok before
  pub after : ResourceLifecycleSnapshot
  pub stored : load_snapshot after_file ≡ ok after
  pub returned : records ≡ after.resources
  pub leases : after.leases ≡ before.leases

some_injective : {A : Type 0} {a b : A} → some a ≡ some b → a ≡ b
some_injective h = cc

put-values :
    (k : String) (r : ResourceRecord) (d : Dict ResourceRecord)
    → Normal r
    → All Normal (values d)
    → All Normal (values (put k r d))
unfolding put values
put-values k r [] normal all = (normal, tt)
put-values k r ((j, x) ∷ d) normal all = elim (Bool-cases (j == k)) [
  | inl e ↦ rw e (normal, all.1)
  | inr e ↦ rw e (all.0, put-values k r d normal all.1)
]

collect_by_id-values :
    (d : Dict ResourceRecord) (rs : List ResourceRecord)
    → All Normal (values d)
    → All Normal rs
    → All Normal (values (collect_by_id d rs))
unfolding collect_by_id
collect_by_id-values d [] all normal = all
collect_by_id-values d (r ∷ rs) all normal =
    collect_by_id-values (put r.resource_id r d) rs (put-values r.resource_id r d normal.0 all)
      normal.1

by_id-values : (rs : List ResourceRecord) → All Normal rs → All Normal (values (by_id rs))
unfolding values
by_id-values rs normal = collect_by_id-values [] rs tt normal

distinct_records-Normal :
    (seen : List String) (records : List ResourceRecord) {rs : List ResourceRecord}
    → distinct_records seen records ≡ ok rs
    → All Normal rs
unfolding distinct_records
distinct_records-Normal seen [] h = subst (All Normal) (ok_injective h) tt
distinct_records-Normal seen (r ∷ records) h =
    let (r', made, h) = >>=-eq-ok (canonical_resource_record r) _ h in
    let (_, h) = >>-eq-ok (forbid (has r.resource_id seen) contract) _ h in
    let (rest, more, last) = >>=-eq-ok (distinct_records (r'.resource_id ∷ seen) records) _ h in
    let c = canonical_resource_record-CanonicalRecord r r' made in
    subst (All Normal) (ok_injective last) (
      normalize-normal r.material c.material,
      distinct_records-Normal (r'.resource_id ∷ seen) records more,
    )

seedable-Normal :
    (records : List ResourceRecord) {rs : List ResourceRecord}
    → seedable_resource_records records ≡ ok rs
    → All Normal rs
unfolding seedable_resource_records
seedable-Normal records h =
    let (rs, e, last) = >>=-eq-ok (distinct_records [] records) _ h in
    subst (All Normal) (ok_injective last)
      (All-sort_by Normal id_le rs (distinct_records-Normal [] records e))

seed_each-Normal :
    (rs : List ResourceRecord) (acc : Seeded) {after : Seeded}
    → seed_each acc rs ≡ ok after
    → All Normal (values acc.existing)
    → All Normal rs
    → All Normal (values after.existing)
unfolding seed_each
seed_each-Normal [] acc h all normal =
    subst (λ (x : Seeded). All Normal (values x.existing)) (ok_injective h) all
seed_each-Normal (r ∷ rs) acc h all normal =
    let next = put-values r.resource_id r acc.existing normal.0 all in
    elim (Option-cases (get r.resource_id acc.existing)) [
      | inl e ↦ seed_each-Normal rs _ (rw (e, seed_each) at h) next normal.1
      | inr (old, e) ↦
          (let (_, h) =
              >>-eq-ok (require (same_record old r) state_conflict) _ (rw (e, seed_each) at h) in
            seed_each-Normal rs _ h next normal.1)
    ]

-- What a plan writes has the leases of the snapshot that it read.
seed_plan-leases :
    (io : Io) (records : List ResourceRecord) (file : SnapshotFile)
    (current : ResourceLifecycleSnapshot) (change : Option ResourceLifecycleSnapshot)
    → seed_plan io records file ≡ ok (current, change)
    → (load_snapshot file ≡ ok current)
      × ((updated : ResourceLifecycleSnapshot)
          → change ≡ some updated
          → (updated.leases ≡ current.leases) × All Normal updated.resources)
unfolding seed_plan
seed_plan-leases io records file current change h =
    let (seeded, seedable, h) = >>=-eq-ok (seedable_resource_records records) _ h in
    let (_, h) = >>-eq-ok (require io.snapshot_lock state_conflict) _ h in
    let (current', found, h) = >>=-eq-ok (load_snapshot file) _ h in
    let (after, each_seeded, last) = >>=-eq-ok (seed_each _ seeded) _ h in
    let same = ok_injective last in
    let normal =
      seed_each-Normal seeded _ each_seeded
        (by_id-values current'.resources (load_snapshot-Normal file found))
        (seedable-Normal records seedable) in
    let all = All-sort_by Normal id_le (values after.existing) normal in
    (
      found ∙ ap (λ x. ok x.0) same,
      λ updated is.
          let change' = ap (λ x. x.1) same ∙ is in
          elim (Bool-cases after.changed) [
            | inr b ↦ absurd (let c = rw b at change' in cc c)
            | inl b ↦
                (let written = some_injective (rw b at change') in
                  (
                    sym (ap (λ (x : ResourceLifecycleSnapshot). x.leases) written)
                        ∙ ap (λ x. x.0.leases) same,
                    subst (λ (x : ResourceLifecycleSnapshot). All Normal x.resources) written all,
                  ))
          ],
    )

-- When seed_resources returns records, the file from which it read a snapshot holds afterwards a
-- snapshot with those records as its resources and with the leases of before, whether something had
-- to be written or not.
pub seed_resources-Seeding :
    (io : Io) (records : List ResourceRecord) (file : SnapshotFile) (rs : List ResourceRecord)
    → (seed_resources io records file).0 ≡ ok rs
    → Seeding file (seed_resources io records file).1 rs
unfolding seed_resources
seed_resources-Seeding io records file rs h = elim (Result-cases (seed_plan io records file)) [
  | inr (e, p) ↦ absurd (ground (arith, h, p))
  | inl ((current, none), p) ↦
      (let (found, _) = seed_plan-leases io records file current none p in
        rw (p, seed_resources)
          record {
            before = current;
            found = found;
            after = current;
            stored = found;
            returned = sym (ok_injective (rw (p, seed_resources) at h));
            leases = refl;
          })
  | inl ((current, some updated), p) ↦
      (let (found, leases) = seed_plan-leases io records file current (some updated) p in
        let (written, last) =
          >>-eq-ok (write_snapshot_locked io.snapshot_write updated file).0 _
            (rw (p, seed_resources) at h) in
        rw (p, seed_resources)
          record {
            before = current;
            found = found;
            after = updated;
            stored =
                write_snapshot_locked-stored io.snapshot_write updated file (leases updated refl).1
                  written;
            returned = sym (ok_injective last);
            leases = (leases updated refl).0;
          })
]

-- When seed_resources raises, whatever the error, the file is as it was.
pub seed_resources-failed :
    (io : Io) (records : List ResourceRecord) (file : SnapshotFile) (e : Error)
    → (seed_resources io records file).0 ≡ err e
    → (seed_resources io records file).1 ≡ file
unfolding seed_resources
seed_resources-failed io records file e h = elim (Result-cases (seed_plan io records file)) [
  | inr (e', p) ↦ ground (arith, p)
  | inl ((current, none), p) ↦ ground (arith, p)
  | inl ((current, some updated), p) ↦
      elim (Result-cases (write_snapshot_locked io.snapshot_write updated file).0) [
        | inl (_, q) ↦ absurd (ground (arith, h, p, q))
        | inr (e', q) ↦
            ground (arith, p, write_snapshot_locked-failed io.snapshot_write updated file q)
      ]
]
