-- ===== src/Tests/Samples.antt =====
-- A disk with two seeded resources, a task's requests, and surroundings in which nobody else writes.
use syvert.Common.{ℕ, zero, suc, String, [], ◌∷◌}
use syvert.Json.{Value, Items, null, text, arr, obj, no_fields, field, items}
use syvert.Lifecycle.Types.{ResourceRecord}
use syvert.Store.Disk.{SnapshotFile, TraceFile, all_well}
use syvert.Store.Seeding.{seed_resources}
use syvert.Service.World.{Env, World}
use syvert.Service.Acquire.{acquire}
use syvert.Service.Release.{release}

abbrev pub account : ResourceRecord
account = record {
  resource_id = "account-1";
  resource_type = "account";
  status = "AVAILABLE";
  material = obj (field "managed_adapter_key" (text "xhs") no_fields);
}

abbrev pub proxy : ResourceRecord
proxy = record {
  resource_id = "proxy-1";
  resource_type = "proxy";
  status = "AVAILABLE";
  material = null;
}

-- A proxy whose material has a list of hosts, or a tuple.
abbrev pub hosts : (Items → Value) → ResourceRecord
hosts sequence = record proxy {
  material = obj (field "hosts" (sequence (items (text "a" ∷ text "b" ∷ []))) no_fields);
}

abbrev now : ℕ → String
now zero = "2026-01-01T00:00:00Z"
now (suc zero) = "2026-01-01T00:00:01.5Z"
now (suc (suc zero)) = "2026-01-01T00:00:02+00:00"
now _ = "2026-01-01T00:00:03Z"

abbrev hex : ℕ → String
hex (suc zero) = "a1"
hex _ = "b2"

abbrev pub calm : Env
calm = record {
  others = λ n d. d;
  io = λ n. all_well;
  now = now;
  bundle_hex = hex;
  lease_hex = hex;
}

abbrev pub seeded : World
seeded = record {
  step = 0;
  disk = record {
    snapshot_file = (seed_resources all_well (account ∷ proxy ∷ []) SnapshotFile.absent).1;
    trace_file = TraceFile.absent;
  };
}

abbrev pub acquire_value : Value
acquire_value = obj (
    field "task_id" (text "task-1") (
      field "adapter_key" (text "xhs") (
        field "capability" (text "search")
          (field "requested_slots" (arr (items (text "account" ∷ text "proxy" ∷ []))) no_fields))))

abbrev pub release_value : Value
release_value = obj (
    field "task_id" (text "task-1") (
      field "lease_id" (text "lease-a1") (
        field "target_status_after_release" (text "INVALID")
          (field "reason" (text "banned") no_fields))))

-- The world after the task's acquisition, and after its release.
abbrev pub held : World
held = (acquire calm 1 acquire_value "task-1" seeded).1

abbrev pub given_back : World
given_back = (release calm 1 release_value "task-1" held).1
