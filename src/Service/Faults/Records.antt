-- ===== src/Service/Faults/Records.antt =====
-- The validators of times, values, records and leases.
use syvert.Common.{
  ℕ, String, true, Option, none, some, List, [], ◌∷◌, Error, contract, invalid_request, has,
  Bool-cases, Option-cases, inl, inr, refl, ◌≡◌,
}
use syvert.Common.Raises.{
  Raises-ok, Raises-err, Raises-bind, Raises-then, Raises-require, Raises-forbid, raises_rules,
}
use syvert.Json.{
  Value, Items, Fields, arr, tuple, obj, field, no_fields, normalize_json_value, normalize_items,
  normalize_fields,
}
use syvert.Time.{or_raise, parse_lifecycle_time, parse_trace_time}
use syvert.Lifecycle.Types.{ResourceRecord, ResourceBundle, ResourceLease, bundle_slot}
use syvert.Lifecycle.Records.{
  require_non_empty, validate_resource_record, unique_from, validate_unique_non_empty_strings,
  check_target, check_reason, validate_settlement, validate_resource_lease, slots_from,
  validate_requested_slots, validate_bundle_slot, validate_resource_bundle,
}
use syvert.Lifecycle.Codec.{canonical_resource_record, coerce_resource_lease}
use syvert.Service.Faults.{is_ordinary, Ordinary}

or_raise-Ordinary : (e : Error) (o : Option ℕ) → is_ordinary e ≡ true → Ordinary (or_raise e o)
unfolding or_raise
or_raise-Ordinary e none p = search raises_rules
or_raise-Ordinary e (some t) p = search raises_rules

pub parse_lifecycle_time-Ordinary : (s : String) → Ordinary (parse_lifecycle_time s)
unfolding parse_lifecycle_time
parse_lifecycle_time-Ordinary s = or_raise-Ordinary Error.contract _ refl

pub parse_trace_time-Ordinary : (s : String) → Ordinary (parse_trace_time s)
unfolding parse_trace_time
parse_trace_time-Ordinary s = or_raise-Ordinary Error.trace_contract _ refl

mutual
  unfolding normalize_json_value normalize_items normalize_fields

  pub normalize_json_value-Ordinary : (v : Value) → Ordinary (normalize_json_value v)
  normalize_json_value-Ordinary (Value.real bits) = search raises_rules
  normalize_json_value-Ordinary (arr vs) =
      Raises-bind (normalize_items vs) _ (normalize_items-Ordinary vs) (λ ws. Raises-ok _)
  normalize_json_value-Ordinary (tuple vs) =
      Raises-bind (normalize_items vs) _ (normalize_items-Ordinary vs) (λ ws. Raises-ok _)
  normalize_json_value-Ordinary (obj fs) =
      Raises-bind (normalize_fields fs) _ (normalize_fields-Ordinary fs) (λ ws. Raises-ok _)
  normalize_json_value-Ordinary Value.other = search raises_rules
  normalize_json_value-Ordinary _ = search raises_rules

  pub normalize_items-Ordinary : (vs : Items) → Ordinary (normalize_items vs)
  normalize_items-Ordinary Items.no_items = Raises-ok _
  normalize_items-Ordinary (Items.cons v vs) =
      Raises-bind (normalize_json_value v) _ (normalize_json_value-Ordinary v)
        (λ w. Raises-bind (normalize_items vs) _ (normalize_items-Ordinary vs) (λ ws. Raises-ok _))

  pub normalize_fields-Ordinary : (fs : Fields) → Ordinary (normalize_fields fs)
  normalize_fields-Ordinary no_fields = Raises-ok _
  normalize_fields-Ordinary (field k v fs) = Raises-then _ _ (Raises-require _ contract refl) (
      Raises-bind (normalize_json_value v) _ (normalize_json_value-Ordinary v) (λ w.
        Raises-bind (normalize_fields fs) _ (normalize_fields-Ordinary fs) (λ ws. Raises-ok _)))

pub require_non_empty-Ordinary :
    (e : Error) (s : String) → is_ordinary e ≡ true → Ordinary (require_non_empty e s)
unfolding require_non_empty
require_non_empty-Ordinary e s p = search raises_rules

pub validate_resource_record-Ordinary : (r : ResourceRecord) → Ordinary (validate_resource_record r)
unfolding validate_resource_record
validate_resource_record-Ordinary r =
    search (raises_rules, require_non_empty-Ordinary, normalize_json_value-Ordinary)

unique_from-Ordinary : (seen vs : List String) → Ordinary (unique_from seen vs)
unfolding unique_from
unique_from-Ordinary seen [] = Raises-ok _
unique_from-Ordinary seen (v ∷ vs) =
    Raises-then _ _ (require_non_empty-Ordinary contract v refl)
      (Raises-then _ _ (Raises-forbid _ contract refl) (unique_from-Ordinary (v ∷ seen) vs))

validate_unique-Ordinary : (vs : List String) → Ordinary (validate_unique_non_empty_strings vs)
unfolding validate_unique_non_empty_strings
validate_unique-Ordinary [] = search raises_rules
validate_unique-Ordinary (v ∷ vs) = unique_from-Ordinary [] (v ∷ vs)

check_target-Ordinary : (o : Option String) → Ordinary (check_target o)
unfolding check_target
check_target-Ordinary none = search raises_rules
check_target-Ordinary (some s) = search raises_rules

check_reason-Ordinary : (o : Option String) → Ordinary (check_reason o)
unfolding check_reason
check_reason-Ordinary none = search raises_rules
check_reason-Ordinary (some s) = require_non_empty-Ordinary contract s refl

validate_settlement-Ordinary :
    (l : ResourceLease) (o : Option String) → Ordinary (validate_settlement l o)
unfolding validate_settlement
validate_settlement-Ordinary l none = search raises_rules
validate_settlement-Ordinary l (some at) =
    search
      (raises_rules, parse_lifecycle_time-Ordinary, check_target-Ordinary, check_reason-Ordinary)
      depth 20 fits 2000

pub validate_resource_lease-Ordinary : (l : ResourceLease) → Ordinary (validate_resource_lease l)
unfolding validate_resource_lease
validate_resource_lease-Ordinary l =
    search
      (
        raises_rules, require_non_empty-Ordinary, parse_lifecycle_time-Ordinary,
        validate_unique-Ordinary, validate_settlement-Ordinary,
      )
      depth 30 fits 3000

slots_from-Ordinary : (seen slots : List String) → Ordinary (slots_from seen slots)
unfolding slots_from
slots_from-Ordinary seen [] = Raises-ok _
slots_from-Ordinary seen (slot ∷ slots) =
    Raises-then _ _ (require_non_empty-Ordinary invalid_request slot refl) (
      Raises-then _ _ (Raises-forbid _ invalid_request refl) (
        Raises-then _ _ (Raises-require _ invalid_request refl)
          (slots_from-Ordinary (slot ∷ seen) slots)))

pub validate_requested_slots-Ordinary :
    (slots : List String) → Ordinary (validate_requested_slots slots)
unfolding validate_requested_slots
validate_requested_slots-Ordinary [] = Raises-err invalid_request refl
validate_requested_slots-Ordinary (slot ∷ slots) = slots_from-Ordinary [] (slot ∷ slots)

validate_bundle_slot-Ordinary :
    (b : ResourceBundle) (slot : String) → Ordinary (validate_bundle_slot b slot)
unfolding validate_bundle_slot
validate_bundle_slot-Ordinary b slot = elim (Bool-cases (has slot b.requested_slots)) [
  | inr i ↦ rw (i, validate_bundle_slot) (Raises-forbid _ contract refl)
  | inl i ↦ elim (Option-cases (bundle_slot b slot)) [
    | inl p ↦ rw (i, p, validate_bundle_slot) (Raises-err contract refl)
    | inr (r, p) ↦
        rw (i, p, validate_bundle_slot) (search (raises_rules, validate_resource_record-Ordinary))
  ]
]

pub validate_resource_bundle-Ordinary : (b : ResourceBundle) → Ordinary (validate_resource_bundle b)
unfolding validate_resource_bundle
validate_resource_bundle-Ordinary b =
    search
      (
        raises_rules, require_non_empty-Ordinary, validate_requested_slots-Ordinary,
        parse_lifecycle_time-Ordinary, validate_bundle_slot-Ordinary,
      )
      depth 30 fits 3000

pub canonical_resource_record-Ordinary :
    (r : ResourceRecord) → Ordinary (canonical_resource_record r)
unfolding canonical_resource_record
canonical_resource_record-Ordinary r =
    search (raises_rules, normalize_json_value-Ordinary, validate_resource_record-Ordinary)

pub coerce_resource_lease-Ordinary : (l : ResourceLease) → Ordinary (coerce_resource_lease l)
unfolding coerce_resource_lease
coerce_resource_lease-Ordinary l = search (raises_rules, validate_resource_lease-Ordinary)
