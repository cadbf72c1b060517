-- ===== src/Health/Evidence/RoundTrip.antt =====
-- Evidence to its JSON form and back.
use syvert.Common.{
  ℕ, String, ◌≡◌, refl, subst, Bool, true, false, not, ◌&&◌, Bool-cases, inl, inr, Option, none,
  some, List, [], ◌∷◌, arith, eq_iff, ◌==◌, is_empty, has, ok, health_contract, pass, require, each,
  All, each-All, require-eq-pass, >>=-eq-ok, >>-eq-ok, ok_injective, if◌then◌else◌,
}
use syvert.Json.{Value, null, text, obj, item}
use syvert.Time.{parse_lifecycle_time, parse_lifecycle_time-empty}
use syvert.Health.Types.{
  ResourceHealthEvidence, evidence_statuses, provenance_values, evidence_fields,
}
use syvert.Health.Redaction.{Unicode}
use syvert.Health.Evidence.{
  as_health, parse_health_time, require_health_text, text_value, optional_given, optional_value,
  check_expiry, check_freshness, context_attributes, validate_resource_health_evidence,
  present_fields, optional_attributes, evidence_object, resource_health_evidence_to_dict, all_known,
  evidence_from_fields, resource_health_evidence_from_dict,
}

abbrev value_of : Option String → Value
value_of none = null
value_of (some s) = text s

keys : List (String × Option String) → List String
keys [] = []
keys ((k, o) ∷ attributes) = k ∷ keys attributes

distinct : List (String × Option String) → Bool
unfolding keys
distinct [] = true
distinct ((k, o) ∷ attributes) = not (has k (keys attributes)) && distinct attributes

attribute : String → List (String × Option String) → Option String
attribute k [] = none
attribute k ((j, o) ∷ attributes) = if j == k then o else attribute k attributes

item-absent :
    (k : String) (attributes : List (String × Option String))
    → has k (keys attributes) ≡ false
    → item k (present_fields attributes) ≡ null
unfolding keys present_fields item has
item-absent k [] h = refl
item-absent k ((j, none) ∷ attributes) h = ground (arith, h, item-absent k attributes)
item-absent k ((j, some s) ∷ attributes) h = ground (arith, h, item-absent k attributes)

item-here :
    (k j : String) (o : Option String) (attributes : List (String × Option String))
    → (j == k) ≡ true
    → item k (present_fields attributes) ≡ null
    → item k (present_fields ((j, o) ∷ attributes)) ≡ value_of (attribute k ((j, o) ∷ attributes))
unfolding present_fields item attribute
item-here k j none attributes e absent = ground (arith, e, absent)
item-here k j (some s) attributes e absent = ground (arith, e)

item-later :
    (k j : String) (o : Option String) (attributes : List (String × Option String))
    → (j == k) ≡ false
    → item k (present_fields attributes) ≡ value_of (attribute k attributes)
    → item k (present_fields ((j, o) ∷ attributes)) ≡ value_of (attribute k ((j, o) ∷ attributes))
unfolding present_fields item attribute
item-later k j none attributes e later = ground (arith, e, later)
item-later k j (some s) attributes e later = ground (arith, e, later)

item-present_fields :
    (k : String) (attributes : List (String × Option String))
    → distinct attributes ≡ true
    → item k (present_fields attributes) ≡ value_of (attribute k attributes)
unfolding distinct present_fields item attribute
item-present_fields k [] h = refl
item-present_fields k ((j, o) ∷ attributes) h =
    let rest : distinct attributes ≡ true = ground (arith, h) in
    let later = item-present_fields k attributes rest in
    elim (Bool-cases (j == k)) [
      | inl e ↦
          (let fresh : has j (keys attributes) ≡ false = ground (arith, h) in
            let absent =
              item-absent k attributes
                (subst (λ x. has x (keys attributes) ≡ false) ((eq_iff j k).0 e) fresh) in
            item-here k j o attributes e absent)
      | inr e ↦ item-later k j o attributes e later
    ]

text_value-ok : (s : String) → is_empty s ≡ false → text_value (text s) ≡ ok s
unfolding text_value require_health_text
text_value-ok s h = ground (arith, h)

optional_value-ok :
    (o : Option String) → optional_given o ≡ pass → optional_value (value_of o) ≡ ok o
unfolding optional_value optional_given text_value
optional_value-ok none h = refl
optional_value-ok (some s) h = ground (arith, h)

-- A text that a check accepts is not empty if the check refuses the empty text.
non_empty : (s : String) (p : String → Bool) → p s ≡ true → p "" ≡ false → is_empty s ≡ false
non_empty s p h refuses = elim (Bool-cases (s == "")) [
  | inl e ↦
      absurd
        (let h' : p "" ≡ true = subst (λ x. p x ≡ true) ((eq_iff s "").0 e) h in cc (h', refuses))
  | inr e ↦ e
]

require_health_text-non_empty : (s : String) → require_health_text s ≡ pass → is_empty s ≡ false
unfolding require_health_text
require_health_text-non_empty s h = ground (arith, h)

parse_health_time-non_empty : (s : String) {t : ℕ} → parse_health_time s ≡ ok t → is_empty s ≡ false
unfolding parse_health_time as_health
parse_health_time-non_empty s {t} h = elim (Bool-cases (s == "")) [
  | inl e ↦ absurd (
      let h' : as_health (parse_lifecycle_time "") ≡ ok t =
        subst (λ x. parse_health_time x ≡ ok t) ((eq_iff s "").0 e) h in
      let h'' = rw (parse_lifecycle_time-empty) at h' in cc h'')
  | inr e ↦ e
]

check_expiry-given :
    (observed_at : String) (o : Option String)
    → check_expiry observed_at o ≡ pass
    → optional_given o ≡ pass
unfolding check_expiry optional_given require_health_text
check_expiry-given observed_at none h = refl
check_expiry-given observed_at (some s) h =
    let (t, parsed, _) = >>=-eq-ok (parse_health_time s) _ h in
    rw (parse_health_time-non_empty s parsed) refl

no_status : has "" evidence_statuses ≡ false
unfolding has
no_status = refl

no_provenance : has "" provenance_values ≡ false
unfolding has
no_provenance = refl

-- What a validated piece of evidence has in its fields.
record Filled (e : ResourceHealthEvidence) : Type 0 where
  pub evidence_id-filled : is_empty e.evidence_id ≡ false
  pub resource_id-filled : is_empty e.resource_id ≡ false
  pub resource_type-filled : is_empty e.resource_type ≡ false
  pub status-filled : is_empty e.status ≡ false
  pub observed_at-filled : is_empty e.observed_at ≡ false
  pub provenance-filled : is_empty e.provenance ≡ false
  pub reason-filled : is_empty e.reason ≡ false
  pub redaction_status-filled : is_empty e.redaction_status ≡ false
  pub expires_at-given : optional_given e.expires_at ≡ pass
  pub attributes-given : All (λ o. optional_given o ≡ pass) (context_attributes e)

validated-Filled :
    (u : Unicode) (e : ResourceHealthEvidence)
    → validate_resource_health_evidence u e ≡ pass
    → Filled e
unfolding validate_resource_health_evidence
validated-Filled u e h =
    let (id, h) = >>-eq-ok (require_health_text e.evidence_id) _ h in
    let (resource, h) = >>-eq-ok (require_health_text e.resource_id) _ h in
    let (kind, h) = >>-eq-ok (require (e.resource_type == "account") health_contract) _ h in
    let (known, h) = >>-eq-ok (require (has e.status evidence_statuses) health_contract) _ h in
    let (t, observed, h) = >>=-eq-ok (parse_health_time e.observed_at) _ h in
    let (expiry, h) = >>-eq-ok (check_expiry e.observed_at e.expires_at) _ h in
    let (_, h) = >>-eq-ok (check_freshness e) _ h in
    let (source, h) = >>-eq-ok (require (has e.provenance provenance_values) health_contract) _ h in
    let (redacted, h) = >>-eq-ok (require (e.redaction_status == "redacted") health_contract) _ h in
    let (reason, h) = >>-eq-ok (require_health_text e.reason) _ h in
    let (attributes, _) = >>-eq-ok (each optional_given (context_attributes e)) _ h in
    record {
      evidence_id-filled = require_health_text-non_empty e.evidence_id id;
      resource_id-filled = require_health_text-non_empty e.resource_id resource;
      resource_type-filled =
          non_empty e.resource_type (λ s. s == "account") (require-eq-pass _ health_contract kind)
            refl;
      status-filled =
          non_empty e.status (λ s. has s evidence_statuses)
            (require-eq-pass _ health_contract known) no_status;
      observed_at-filled = parse_health_time-non_empty e.observed_at observed;
      provenance-filled =
          non_empty e.provenance (λ s. has s provenance_values)
            (require-eq-pass _ health_contract source) no_provenance;
      reason-filled = require_health_text-non_empty e.reason reason;
      redaction_status-filled =
          non_empty e.redaction_status (λ s. s == "redacted")
            (require-eq-pass _ health_contract redacted) refl;
      expires_at-given = check_expiry-given e.observed_at e.expires_at expiry;
      attributes-given = each-All optional_given (context_attributes e) attributes;
    }

module _ (e : ResourceHealthEvidence) where
  optional-item :
      (k : String)
      → optional_given (attribute k (optional_attributes e)) ≡ pass
      → optional_value (item k (present_fields (optional_attributes e)))
        ≡ ok (attribute k (optional_attributes e))
  unfolding distinct keys has
  optional-item k given =
      rw (item-present_fields k (optional_attributes e) refl)
        (optional_value-ok (attribute k (optional_attributes e)) given)

  evidence_from_fields-object :
      Filled e
      → optional_given e.freshness_policy_ref ≡ pass
      → evidence_from_fields (evidence_object e) ≡ ok e
  unfolding evidence_from_fields item attribute
  evidence_from_fields-object filled policy =
      let given = filled.attributes-given in
      let h_evidence_id : text_value (item "evidence_id" (evidence_object e)) ≡ ok e.evidence_id =
        text_value-ok e.evidence_id filled.evidence_id-filled in
      let h_resource_id : text_value (item "resource_id" (evidence_object e)) ≡ ok e.resource_id =
        text_value-ok e.resource_id filled.resource_id-filled in
      let h_resource_type : text_value (item "resource_type" (evidence_object e))
          ≡ ok e.resource_type =
        text_value-ok e.resource_type filled.resource_type-filled in
      let h_status : text_value (item "status" (evidence_object e)) ≡ ok e.status =
        text_value-ok e.status filled.status-filled in
      let h_observed_at : text_value (item "observed_at" (evidence_object e)) ≡ ok e.observed_at =
        text_value-ok e.observed_at filled.observed_at-filled in
      let h_provenance : text_value (item "provenance" (evidence_object e)) ≡ ok e.provenance =
        text_value-ok e.provenance filled.provenance-filled in
      let h_reason : text_value (item "reason" (evidence_object e)) ≡ ok e.reason =
        text_value-ok e.reason filled.reason-filled in
      let h_redaction_status : text_value (item "redaction_status" (evidence_object e))
          ≡ ok e.redaction_status =
        text_value-ok e.redaction_status filled.redaction_status-filled in
      let h_expires_at : optional_value (item "expires_at" (evidence_object e)) ≡ ok e.expires_at =
        optional-item "expires_at" filled.expires_at-given in
      let h_freshness_policy_ref : optional_value (item "freshness_policy_ref" (evidence_object e))
          ≡ ok e.freshness_policy_ref =
        optional-item "freshness_policy_ref" policy in
      let h_task_id : optional_value (item "task_id" (evidence_object e)) ≡ ok e.task_id =
        optional-item "task_id" given.0 in
      let h_lease_id : optional_value (item "lease_id" (evidence_object e)) ≡ ok e.lease_id =
        optional-item "lease_id" given.1.0 in
      let h_bundle_id : optional_value (item "bundle_id" (evidence_object e)) ≡ ok e.bundle_id =
        optional-item "bundle_id" given.1.1.0 in
      let h_adapter_key : optional_value (item "adapter_key" (evidence_object e))
          ≡ ok e.adapter_key =
        optional-item "adapter_key" given.1.1.1.0 in
      let h_capability : optional_value (item "capability" (evidence_object e)) ≡ ok e.capability =
        optional-item "capability" given.1.1.1.1.0 in
      let h_operation : optional_value (item "operation" (evidence_object e)) ≡ ok e.operation =
        optional-item "operation" given.1.1.1.1.1.0 in
      let h_diagnostic_ref : optional_value (item "diagnostic_ref" (evidence_object e))
          ≡ ok e.diagnostic_ref =
        optional-item "diagnostic_ref" given.1.1.1.1.1.1.0 in
      rw
        (
          h_evidence_id, h_resource_id, h_resource_type, h_status, h_observed_at, h_provenance,
          h_reason, h_redaction_status, h_expires_at, h_freshness_policy_ref, h_task_id, h_lease_id,
          h_bundle_id, h_adapter_key, h_capability, h_operation, h_diagnostic_ref,
        )
        refl

known : List (String × Option String) → Bool
known [] = true
known ((k, o) ∷ attributes) = has k evidence_fields && known attributes

all_known-present_fields :
    (attributes : List (String × Option String))
    → known attributes ≡ true
    → all_known (present_fields attributes) ≡ true
unfolding known all_known present_fields
all_known-present_fields [] h = refl
all_known-present_fields ((k, none) ∷ attributes) h =
    ground (arith, h, all_known-present_fields attributes)
all_known-present_fields ((k, some s) ∷ attributes) h =
    ground (arith, h, all_known-present_fields attributes)

all_known-evidence_object : (e : ResourceHealthEvidence) → all_known (evidence_object e) ≡ true
unfolding all_known known has
all_known-evidence_object e = all_known-present_fields (optional_attributes e) refl

from_dict-evidence_object :
    (u : Unicode) (e : ResourceHealthEvidence)
    → validate_resource_health_evidence u e ≡ pass
    → optional_given e.freshness_policy_ref ≡ pass
    → resource_health_evidence_from_dict u (obj (evidence_object e)) ≡ ok e
unfolding resource_health_evidence_from_dict
from_dict-evidence_object u e valid policy =
    rw (all_known-evidence_object e)
      (rw (evidence_from_fields-object e (validated-Filled u e valid) policy) (rw valid refl))

-- Whatever evidence resource_health_evidence_to_dict writes, resource_health_evidence_from_dict
-- reads back as it was, if its freshness_policy_ref is missing or not empty.
pub resource_health_evidence-round_trip :
    (u : Unicode) (e : ResourceHealthEvidence) {v : Value}
    → resource_health_evidence_to_dict u e ≡ ok v
    → optional_given e.freshness_policy_ref ≡ pass
    → resource_health_evidence_from_dict u v ≡ ok e
unfolding resource_health_evidence_to_dict
resource_health_evidence-round_trip u e h policy =
    let (valid, last) = >>-eq-ok (validate_resource_health_evidence u e) _ h in
    subst (λ x. resource_health_evidence_from_dict u x ≡ ok e) (ok_injective last)
      (from_dict-evidence_object u e valid policy)
