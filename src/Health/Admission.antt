-- ===== src/Health/Admission.antt =====
-- `decide_resource_health_admission` of syvert/resource_health.py.
pub mod Total
pub mod Latest
pub mod Vouched
use syvert.Common.{
  ℕ, zero, suc, ◌+◌, String, Bool, true, false, not, ◌&&◌, ◌||◌, Option, none, some, List, [], ◌∷◌,
  map, ◌==◌, eqb, leb, ltb, is_empty, has, keep, Error, Result, ok, err, contract, health_contract,
  credential_contract, Check, require, each, traverse, ◌>>=◌, ◌>>◌, if◌then◌else◌,
}
use syvert.Json.{
  Value, Fields, null, text, arr, obj, boolean, no_fields, field, item, items, normalize_json_value,
}
use syvert.Lifecycle.Types.{ResourceRecord, managed_account_adapter_key_field}
use syvert.Health.Types.{
  CredentialMaterial, ResourceHealthEvidence, Supplied, ResourceAdmissionDecision, healthy, stale,
  session_invalid, unknown, session_health_values, admitted, rejected, invalid_contract,
  decision_statuses, health_evidence_contract_invalid,
}
use syvert.Health.Redaction.{Unicode}
use syvert.Health.Evidence.Faults.{is_health_error}
use syvert.Health.Evidence.{parse_health_time, coerce_evidence}

-- Errors of this module name `CredentialMaterial` or the account's material, or are of the evidence.
adapter_key_of : Value → Result String
adapter_key_of (text s) = do require (not (is_empty s)) credential_contract; ok s
adapter_key_of _ = err credential_contract

-- `_normalize_json_mapping` of a mapping
as_mapping : Result Value → Result Fields
as_mapping (ok (obj fs)) = ok fs
as_mapping _ = err credential_contract

normalize_mapping : Fields → Result Fields
unfolding normalize_json_value as_mapping
normalize_mapping fs = as_mapping (normalize_json_value (obj fs))

bind_material : String → Value → Result CredentialMaterial
unfolding adapter_key_of normalize_mapping item
bind_material resource_id (obj fs) = do
  adapter_key ← adapter_key_of (item managed_account_adapter_key_field fs)
  material ← normalize_mapping fs
  ok (record { resource_id = resource_id; adapter_key = adapter_key; material = material })
bind_material resource_id _ = err credential_contract

unfoldable pub credential_material_from_account_resource :
    ResourceRecord → Result CredentialMaterial
unfolding bind_material
credential_material_from_account_resource r = do
  require (r.resource_type == "account") credential_contract
  bind_material r.resource_id r.material

pub field_count : Fields → ℕ
field_count no_fields = 0
field_count (field k v fs) = field_count fs + 1

-- The public projection shows how many fields there are, and none of them.
unfoldable pub credential_material_public_projection : CredentialMaterial → Value
unfolding field_count
credential_material_public_projection c = obj (
    field "resource_id" (text c.resource_id) (
      field "adapter_key" (text c.adapter_key) (
        field "material_boundary" (text "account_credential_material") (
          field "redaction_status" (text "redacted") (
            field "material_field_count" (Value.number (field_count c.material))
              (field "material_fields_redacted" (boolean true) no_fields))))))

unfoldable pub same_given : Option String → String → Bool
same_given none s = false
same_given (some t) s = t == s

unfoldable pub same_operation : Option String → Option String → Bool
unfolding same_given
same_operation evidence none = false
same_operation evidence (some operation) = same_given evidence operation

unfoldable pub validate_evidence_context :
    (task_id adapter_key capability : String) → Option String → ResourceHealthEvidence → Check
unfolding same_given same_operation
validate_evidence_context task_id adapter_key capability operation e = do
  require (same_given e.task_id task_id) health_contract
  require (same_given e.adapter_key adapter_key) health_contract
  require (same_given e.capability capability) health_contract
  require (same_operation e.operation operation) health_contract

-- `max` of the first time and the others
unfoldable pub max_time : ℕ → List ℕ → ℕ
max_time t [] = t
max_time t (x ∷ xs) = max_time (if ltb t x then x else t) xs

abbrev pub observed_time : ResourceHealthEvidence → Result ℕ
observed_time e = parse_health_time e.observed_at

-- `max_observed_at` of evidence that is not empty
unfoldable pub max_observed_at : ResourceHealthEvidence → List ResourceHealthEvidence → Result ℕ
unfolding max_time
max_observed_at e es = do t ← observed_time e; ts ← traverse observed_time es; ok (max_time t ts)

unfoldable pub latest_evidence :
    ℕ → List ResourceHealthEvidence → Result (List ResourceHealthEvidence)
latest_evidence t [] = ok []
latest_evidence t (e ∷ es) = do
  observed ← observed_time e
  rest ← latest_evidence t es
  ok (if eqb observed t then e ∷ rest else rest)

parse_given : Option String → Result ℕ
parse_given none = err health_contract
parse_given (some at) = parse_health_time at

unfoldable pub expiry_of : ResourceHealthEvidence → Result ℕ
unfolding parse_given
expiry_of e = parse_given e.expires_at

unfoldable pub any_due : ℕ → List ℕ → Bool
any_due at [] = false
any_due at (expires ∷ rest) = leb expires at || any_due at rest

-- What one account's evidence makes of the projection: an early return, a change or nothing.
pub data AccountHealth : Type 0 where
  answers : String → AccountHealth
  turns_stale stays : AccountHealth

unfoldable pub judge_latest : ℕ → List ResourceHealthEvidence → Result AccountHealth
unfolding expiry_of any_due
judge_latest at latest =
    let statuses = map (λ e. e.status) latest in
    if has session_invalid statuses
    then ok (answers session_invalid)
    else if has stale statuses
    then ok turns_stale
    else (do
      expiries ← traverse expiry_of latest
      ok (if any_due at expiries then turns_stale else stays))

unfoldable pub judge_account : ℕ → List ResourceHealthEvidence → Result AccountHealth
judge_account at [] = ok (answers unknown)
judge_account at (e ∷ es) = do
  newest ← max_observed_at e es
  latest ← latest_evidence newest (e ∷ es)
  judge_latest at latest

abbrev pub evidence_of : String → List ResourceHealthEvidence → List ResourceHealthEvidence
evidence_of resource_id = keep (λ e. e.resource_id == resource_id)

-- The end of one round of the loop: `next` goes on with the projection so far.
unfoldable pub after_account : String → AccountHealth → (String → Result String) → Result String
after_account projected (answers health) next = ok health
after_account projected turns_stale next = next stale
after_account projected stays next = next projected

-- The loop of `_project_account_resources_health`.
unfoldable pub project_accounts :
    String → List ResourceRecord → List ResourceHealthEvidence → ℕ → Result String
project_accounts projected [] evidence at = ok projected
project_accounts projected (account ∷ accounts) evidence at = do
  health ← judge_account at (evidence_of account.resource_id evidence)
  after_account projected health (λ p. project_accounts p accounts evidence at)

-- The fields of the decision that the assessment settles.
pub record Assessment : Type 0 where
  pub refs : List String
  pub health : String
  pub status : String
  pub reason : Option String
  pub fail_closed : Bool

unfoldable pub decision_for_projected_health : List String → String → Assessment
decision_for_projected_health refs health =
    if health == healthy
    then record {
      refs = refs;
      health = health;
      status = admitted;
      reason = none;
      fail_closed = false;
    }
    else record {
      refs = refs;
      health = health;
      status = rejected;
      reason = some (
          if health == stale
          then "credential_session_stale"
          else if health == session_invalid
          then "pre_admission_session_invalid"
          else "credential_session_unknown");
      fail_closed = true;
    }

unfoldable pub check_credential : String → ResourceRecord → Check
check_credential adapter_key account = do
  credential ← credential_material_from_account_resource account
  require (credential.adapter_key == adapter_key) credential_contract

abbrev pub ids : List ResourceRecord → List String
ids = map (λ r. r.resource_id)

abbrev pub account_resources : List ResourceRecord → List ResourceRecord
account_resources = keep (λ r. r.resource_type == "account")

-- The part of the `try` block below `if not account_resources`.
unfoldable pub assess_accounts :
    String → List ResourceRecord → List ResourceHealthEvidence → ℕ → Result Assessment
unfolding check_credential decision_for_projected_health
assess_accounts adapter_key [] evidence at = ok (record {
  refs = map (λ e. e.evidence_id) evidence;
  health = unknown;
  status = rejected;
  reason = some "credential_session_unknown";
  fail_closed = true;
})
assess_accounts adapter_key (account ∷ accounts) evidence at = do
  each (λ e. require (has e.resource_id (ids (account ∷ accounts))) health_contract) evidence
  each (check_credential adapter_key) (account ∷ accounts)
  projected ← project_accounts healthy (account ∷ accounts) evidence at
  ok (decision_for_projected_health (map (λ e. e.evidence_id) evidence) projected)

abbrev pub ungated : Assessment
ungated = record {
  refs = [];
  health = healthy;
  status = admitted;
  reason = none;
  fail_closed = false;
}

-- The context of a decision.
pub record Context : Type 0 where
  pub task_id : String
  pub adapter_key : String
  pub capability : String
  pub operation : Option String

unfoldable pub assess_evidence :
    Unicode → Context → List ResourceRecord → List Supplied → ℕ → Result Assessment
assess_evidence u c resources evidence at = do
  normalized ← traverse (coerce_evidence u) evidence
  each (validate_evidence_context c.task_id c.adapter_key c.capability c.operation) normalized
  assess_accounts c.adapter_key (account_resources resources) normalized at

-- The `try` block.
unfoldable pub assess :
    Unicode
    → Context
    → List String
    → List ResourceRecord
    → List Supplied
    → String
    → Bool
    → Result Assessment
assess u c requested_slots resources evidence evaluated_at require_fresh_account_session = do
  at ← parse_health_time evaluated_at
  (if require_fresh_account_session && has "account" requested_slots
      then assess_evidence u c resources evidence at
      else ok ungated)

-- `_is_credential_material_contract_error`
abbrev is_credential_material_contract_error : Error → Bool
is_credential_material_contract_error Error.credential_contract = true
is_credential_material_contract_error _ = false

abbrev pub contract_failure : Error → Assessment
contract_failure e = record {
  refs = [];
  health = unknown;
  status = invalid_contract;
  reason = some (
      if is_credential_material_contract_error e
      then "credential_material_contract_invalid"
      else health_evidence_contract_invalid);
  fail_closed = true;
}

unfoldable pub handle_assessment : Result Assessment → Result Assessment
handle_assessment (ok a) = ok a
handle_assessment (err e) = if is_health_error e then ok (contract_failure e) else err e

-- The handler stamps the decision with the clock, `now`.
unfoldable pub stamp_of : Result Assessment → (evaluated_at now : String) → String
stamp_of (ok a) evaluated_at now = evaluated_at
stamp_of (err e) evaluated_at now = now

unfoldable pub decide_resource_health_admission :
    Unicode
    → String
    → Context
    → List String
    → List ResourceRecord
    → List Supplied
    → (evaluated_at now : String) → Bool
    → Result ResourceAdmissionDecision
decide_resource_health_admission u decision_id c requested_slots resources evidence evaluated_at now
      fresh =
    do
      let assessed = assess u c requested_slots resources evidence evaluated_at fresh
      a ← handle_assessment assessed
      ok (record {
        decision_id = decision_id;
        task_id = c.task_id;
        adapter_key = c.adapter_key;
        capability = c.capability;
        operation = c.operation;
        requested_slots = requested_slots;
        resource_ids = ids resources;
        health_evidence_refs = a.refs;
        evaluated_at = stamp_of assessed evaluated_at now;
        projected_session_health = a.health;
        decision_status = a.status;
        failure_reason = a.reason;
        fail_closed = a.fail_closed;
      })

text_or_null : Option String → Value
text_or_null none = null
text_or_null (some s) = text s

text_list : List String → Value
text_list xs = arr (items (map text xs))

unfoldable pub resource_admission_decision_to_dict : ResourceAdmissionDecision → Result Value
unfolding text_or_null text_list items
resource_admission_decision_to_dict d = do
  require (has d.projected_session_health session_health_values) health_contract
  require (has d.decision_status decision_statuses) health_contract
  at ← parse_health_time d.evaluated_at
  ok (
      obj (
        field "decision_id" (text d.decision_id) (
          field "task_id" (text d.task_id) (
            field "adapter_key" (text d.adapter_key) (
              field "capability" (text d.capability) (
                field "operation" (text_or_null d.operation) (
                  field "requested_slots" (text_list d.requested_slots) (
                    field "resource_ids" (text_list d.resource_ids) (
                      field "health_evidence_refs" (text_list d.health_evidence_refs) (
                        field "evaluated_at" (text d.evaluated_at) (
                          field "projected_session_health" (text d.projected_session_health) (
                            field "decision_status" (text d.decision_status) (
                              field "failure_reason" (text_or_null d.failure_reason)
                                (field "fail_closed" (boolean d.fail_closed) no_fields))))))))))))))
