-- ===== src/Lifecycle/Types.antt =====
-- The data classes and constants of syvert/resource_lifecycle.py.
use syvert.Common.{ℕ, String, true, false, Option, none, List, [], ◌∷◌, Dict, has, put}
use syvert.Json.{Value}

abbrev pub lifecycle_version : String
lifecycle_version = "v0.4.0"

abbrev pub available : String
available = "AVAILABLE"

abbrev pub in_use : String
in_use = "IN_USE"

abbrev pub invalid : String
invalid = "INVALID"

abbrev pub account_slot : String
account_slot = "account"

abbrev pub proxy_slot : String
proxy_slot = "proxy"

abbrev pub resource_types : List String
resource_types = account_slot ∷ proxy_slot ∷ []

abbrev pub resource_statuses : List String
resource_statuses = available ∷ in_use ∷ invalid ∷ []

abbrev pub release_target_statuses : List String
release_target_statuses = available ∷ invalid ∷ []

abbrev pub managed_account_adapter_key_field : String
managed_account_adapter_key_field = "managed_adapter_key"

pub record ResourceRecord : Type 0 where
  pub resource_id : String
  pub resource_type : String
  pub status : String
  pub material : Value

pub record ResourceBundle : Type 0 where
  pub bundle_id : String
  pub lease_id : String
  pub task_id : String
  pub adapter_key : String
  pub capability : String
  pub requested_slots : List String
  pub acquired_at : String
  pub account : Option ResourceRecord
  pub proxy : Option ResourceRecord

pub record ResourceLease : Type 0 where
  pub lease_id : String
  pub bundle_id : String
  pub task_id : String
  pub adapter_key : String
  pub capability : String
  pub resource_ids : List String
  pub acquired_at : String
  pub released_at : Option String
  pub target_status_after_release : Option String
  pub release_reason : Option String

pub record AcquireRequest : Type 0 where
  pub task_id : String
  pub adapter_key : String
  pub capability : String
  pub requested_slots : List String

pub record ReleaseRequest : Type 0 where
  pub lease_id : String
  pub task_id : String
  pub target_status_after_release : String
  pub reason : String

pub record ResourceLifecycleSnapshot : Type 0 where
  pub schema_version : String
  pub revision : ℕ
  pub resources : List ResourceRecord
  pub leases : List ResourceLease

abbrev pub empty_snapshot : ResourceLifecycleSnapshot
empty_snapshot = record {
  schema_version = lifecycle_version;
  revision = 0;
  resources = [];
  leases = [];
}

-- `{record.resource_id: record for record in records}`, on a dict that holds some already
unfoldable pub collect_by_id : Dict ResourceRecord → List ResourceRecord → Dict ResourceRecord
collect_by_id d [] = d
collect_by_id d (r ∷ rs) = collect_by_id (put r.resource_id r d) rs

abbrev pub by_id : List ResourceRecord → Dict ResourceRecord
by_id rs = collect_by_id [] rs

-- `getattr(bundle, slot)` for the two slots that a bundle has
unfoldable pub bundle_slot : ResourceBundle → String → Option ResourceRecord
bundle_slot b slot = elim (has slot (account_slot ∷ [])) [
  | true ↦ b.account
  | false ↦ elim (has slot (proxy_slot ∷ [])) [ true ↦ b.proxy | false ↦ none ]
]
