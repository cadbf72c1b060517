-- ===== src/Tests/Runs.antt =====
-- Runs of acquisition and release on the sample disk.
use syvert.Common.{String, ◌≡◌, refl, List, [], ◌∷◌, map, Result, ok, err}
use syvert.Json.{arr, tuple}
use syvert.Lifecycle.Types.{ResourceLifecycleSnapshot}
use syvert.Store.Disk.{SnapshotFile, all_well}
use syvert.Store.Seeding.{seed_resources}
use syvert.Store.LifecycleStore.{load_snapshot}
use syvert.Tests.Program.{program}
use syvert.Tests.Samples.{seeded, held, given_back, hosts}

statuses : Result ResourceLifecycleSnapshot → List (String × String)
statuses (ok s) = map (λ r. (r.resource_id, r.status)) s.resources
statuses (err e) = []

seeded_statuses :
    statuses (load_snapshot seeded.disk.snapshot_file)
    ≡ ("account-1", "AVAILABLE") ∷ ("proxy-1", "AVAILABLE") ∷ []
unfolding statuses program
seeded_statuses = refl

held_statuses :
    statuses (load_snapshot held.disk.snapshot_file)
    ≡ ("account-1", "IN_USE") ∷ ("proxy-1", "IN_USE") ∷ []
unfolding statuses program
held_statuses = refl

given_back_statuses :
    statuses (load_snapshot given_back.disk.snapshot_file)
    ≡ ("account-1", "INVALID") ∷ ("proxy-1", "INVALID") ∷ []
unfolding statuses program
given_back_statuses = refl

abbrev hosts_file : SnapshotFile
hosts_file = (seed_resources all_well (hosts tuple ∷ []) SnapshotFile.absent).1

-- Seeding the same record again finds it stored, with a list where the material has a tuple.
tuple_seeded_again :
    seed_resources all_well (hosts tuple ∷ []) hosts_file ≡ (ok (hosts arr ∷ []), hosts_file)
unfolding program
tuple_seeded_again = refl
