-- ===== src/Health/Findings.antt =====
-- What evidence of an invalid session says against a snapshot, and the decisions that refuse it, in
-- `invalidate_active_lease_from_health_evidence` of syvert/resource_health.py.
use Prim.Native.String.{◌++◌ as text_append}
use syvert.Common.{
  String, Bool, true, false, not, ◌&&◌, ◌||◌, Option, none, some, List, [], ◌∷◌, ◌==◌, is_empty,
  is_some, has, get, if◌then◌else◌,
}
use syvert.Lifecycle.Types.{ResourceRecord, ResourceLease, ResourceLifecycleSnapshot, by_id}
use syvert.Lifecycle.Transitions.{find_lease}
use syvert.Health.Types.{
  ResourceHealthEvidence, ResourceAdmissionDecision, session_invalid, unknown, rejected,
  invalid_contract, health_evidence_contract_invalid,
}
use syvert.Health.Admission.{same_given}

-- `value or default` of a text that may be `None`
unfoldable pub or_default : Option String → String → String
or_default none default = default
or_default (some s) default = if is_empty s then default else s

-- A decision on evidence that was read, by what the callers below differ in.
unfoldable pub invalidation_decision :
    (health status reason : String)
    → ResourceHealthEvidence
    → (context now : String) → ResourceAdmissionDecision
unfolding or_default
invalidation_decision health status reason e context now = record {
  decision_id = text_append "resource-invalidation:" e.evidence_id;
  task_id = or_default e.task_id context;
  adapter_key = or_default e.adapter_key "";
  capability = or_default e.capability "";
  operation = e.operation;
  requested_slots = "account" ∷ [];
  resource_ids = e.resource_id ∷ [];
  health_evidence_refs = e.evidence_id ∷ [];
  evaluated_at = now;
  projected_session_health = health;
  decision_status = status;
  failure_reason = some reason;
  fail_closed = true;
}

unfoldable pub invalidation_rejected_decision :
    ResourceHealthEvidence → (context now : String) → ResourceAdmissionDecision
unfolding invalidation_decision
invalidation_rejected_decision =
    invalidation_decision session_invalid rejected "pre_admission_session_invalid"

unfoldable pub invalid_contract_decision :
    ResourceHealthEvidence → (context now : String) → ResourceAdmissionDecision
unfolding invalidation_decision
invalid_contract_decision =
    invalidation_decision unknown invalid_contract health_evidence_contract_invalid

unfoldable pub invalid_contract_decision_from_context :
    (context : String) → Option String → (now : String) → ResourceAdmissionDecision
invalid_contract_decision_from_context context operation now = record {
  decision_id = "resource-invalidation:invalid-contract";
  task_id = context;
  adapter_key = "";
  capability = "";
  operation = operation;
  requested_slots = "account" ∷ [];
  resource_ids = [];
  health_evidence_refs = [];
  evaluated_at = now;
  projected_session_health = unknown;
  decision_status = invalid_contract;
  failure_reason = some health_evidence_contract_invalid;
  fail_closed = true;
}

unfoldable pub find_active_lease : List ResourceLease → String → Option ResourceLease
find_active_lease [] lease_id = none
find_active_lease (lease ∷ leases) lease_id =
    if lease.lease_id == lease_id && not (is_some lease.released_at)
    then some lease
    else find_active_lease leases lease_id

unfoldable pub find_active_lease_for_resource : List ResourceLease → String → Option ResourceLease
find_active_lease_for_resource [] resource_id = none
find_active_lease_for_resource (lease ∷ leases) resource_id =
    if not (is_some lease.released_at) && has resource_id lease.resource_ids
    then some lease
    else find_active_lease_for_resource leases resource_id

unfoldable pub missing_active_context_binding : ResourceHealthEvidence → Bool
missing_active_context_binding e =
    not (is_some e.task_id)
    || not (is_some e.lease_id)
    || not (is_some e.bundle_id)
    || not (is_some e.adapter_key)
    || not (is_some e.capability)
    || not (is_some e.operation)

unfoldable pub evidence_mismatches_lease_context : ResourceHealthEvidence → ResourceLease → Bool
unfolding same_given
evidence_mismatches_lease_context e lease =
    not (has e.resource_id lease.resource_ids)
    || not (same_given e.task_id lease.task_id)
    || not (same_given e.bundle_id lease.bundle_id)
    || not (same_given e.adapter_key lease.adapter_key)
    || not (same_given e.capability lease.capability)

-- What a snapshot says of the evidence's lease.
pub data Finding : Type 0 where
  contradicted refused : Finding
  bound : ResourceLease → ResourceRecord → Finding

mismatches : ResourceHealthEvidence → Option ResourceLease → Bool
unfolding evidence_mismatches_lease_context
mismatches e none = false
mismatches e (some lease) = evidence_mismatches_lease_context e lease

-- `if active_lease is None`
unfoldable pub without_active_lease :
    ResourceHealthEvidence → String → ResourceLifecycleSnapshot → Finding
unfolding mismatches find_lease find_active_lease_for_resource
without_active_lease e lease_id s = elim (get e.resource_id (by_id s.resources)) [
  | none ↦ contradicted
  | some r ↦
      if not (r.resource_type == "account")
        || mismatches e (find_lease s.leases lease_id)
        || is_some (find_active_lease_for_resource s.leases e.resource_id)
      then contradicted
      else refused
]

-- `evidence.bundle_id is not None and evidence.bundle_id != lease.bundle_id`
other_bundle : Option String → String → Bool
other_bundle none bundle_id = false
other_bundle (some b) bundle_id = not (b == bundle_id)

agrees : ResourceHealthEvidence → String → ResourceLease → ResourceRecord → Bool
unfolding other_bundle same_given
agrees e context lease r =
    has e.resource_id lease.resource_ids
    && r.resource_type == "account"
    && context == lease.task_id
    && same_given e.task_id lease.task_id
    && not (other_bundle e.bundle_id lease.bundle_id)
    && same_given e.adapter_key lease.adapter_key
    && same_given e.capability lease.capability

unfoldable pub with_active_lease :
    ResourceHealthEvidence → String → ResourceLease → ResourceLifecycleSnapshot → Finding
unfolding agrees
with_active_lease e context lease s = elim (get e.resource_id (by_id s.resources)) [
  | none ↦ contradicted
  | some r ↦ if agrees e context lease r then bound lease r else contradicted
]

unfoldable pub inspect :
    ResourceHealthEvidence → (context lease_id : String) → ResourceLifecycleSnapshot → Finding
unfolding find_active_lease
inspect e context lease_id s = elim (find_active_lease s.leases lease_id) [
  | none ↦ without_active_lease e lease_id s
  | some lease ↦ with_active_lease e context lease s
]
