-- ===== src/Lifecycle/Codec/Normal.antt =====
-- What the readers of syvert/resource_lifecycle.py give has normal materials.
use syvert.Common.{
  ◌≡◌, ap, ◌∙◌, subst, List, [], ◌∷◌, All, ok, traverse, >>=-eq-ok, >>-eq-ok, ok_injective,
}
use syvert.Json.{Value, Fields, obj, item}
use syvert.Json.Normal.{normalize-normal}
use syvert.Lifecycle.Types.{ResourceRecord, ResourceLifecycleSnapshot}
use syvert.Lifecycle.Records.{normalize_resource_material, validate_resource_record}
use syvert.Lifecycle.Snapshot.{validate_snapshot}
use syvert.Lifecycle.Codec.{
  require_contract_text, require_non_negative_int, list_of, record_from_fields,
  snapshot_from_fields, resource_record_from_dict, resource_lease_from_dict, snapshot_from_dict,
  snapshot_to_dict,
}
use syvert.Lifecycle.Codec.Canonical.{Normal, canonical_snapshot-eq_self}
use syvert.Lifecycle.Codec.RoundTrip.{snapshot-round_trip}

-- Whatever snapshot of normal records is written is read back as it was.
pub snapshot-round_trip_self :
    (s : ResourceLifecycleSnapshot) {v : Value}
    → snapshot_to_dict s ≡ ok v
    → All Normal s.resources
    → snapshot_from_dict v ≡ ok s
snapshot-round_trip_self s h normal =
    let (s', made, read) = snapshot-round_trip s h in
    read ∙ ap ok (canonical_snapshot-eq_self s made normal)

record_from_fields-Normal :
    (fs : Fields) {r : ResourceRecord} → record_from_fields fs ≡ ok r → Normal r
unfolding record_from_fields
record_from_fields-Normal fs h =
    let (_, _, h) = >>=-eq-ok (require_contract_text (item "resource_id" fs)) _ h in
    let (_, _, h) = >>=-eq-ok (require_contract_text (item "resource_type" fs)) _ h in
    let (_, _, h) = >>=-eq-ok (require_contract_text (item "status" fs)) _ h in
    let (m, e, last) = >>=-eq-ok (normalize_resource_material (item "material" fs)) _ h in
    subst Normal (ok_injective last) (normalize-normal _ e)

record_from_dict-Normal :
    (v : Value) {r : ResourceRecord} → resource_record_from_dict v ≡ ok r → Normal r
unfolding resource_record_from_dict
record_from_dict-Normal (obj fs) h =
    let (r, e, h) = >>=-eq-ok (record_from_fields fs) _ h in
    let (_, last) = >>-eq-ok (validate_resource_record r) _ h in
    subst Normal (ok_injective last) (record_from_fields-Normal fs e)
record_from_dict-Normal _ h = cc

records_from_dict-Normal :
    (vs : List Value) {rs : List ResourceRecord}
    → traverse resource_record_from_dict vs ≡ ok rs
    → All Normal rs
unfolding traverse
records_from_dict-Normal [] h = subst (All Normal) (ok_injective h) tt
records_from_dict-Normal (v ∷ vs) h =
    let (r, first, rest) = >>=-eq-ok (resource_record_from_dict v) _ h in
    let (rs, more, last) = >>=-eq-ok (traverse resource_record_from_dict vs) _ rest in
    subst (All Normal) (ok_injective last)
      (record_from_dict-Normal v first, records_from_dict-Normal vs more)

snapshot_from_fields-Normal :
    (fs : Fields) {s : ResourceLifecycleSnapshot}
    → snapshot_from_fields fs ≡ ok s
    → All Normal s.resources
unfolding snapshot_from_fields
snapshot_from_fields-Normal fs h =
    let (raw, _, h) = >>=-eq-ok (list_of (item "resources" fs)) _ h in
    let (raw', _, h) = >>=-eq-ok (list_of (item "leases" fs)) _ h in
    let (_, _, h) = >>=-eq-ok (require_contract_text (item "schema_version" fs)) _ h in
    let (_, _, h) = >>=-eq-ok (require_non_negative_int (item "revision" fs)) _ h in
    let (rs, e, h) = >>=-eq-ok (traverse resource_record_from_dict raw) _ h in
    let (ls, _, last) = >>=-eq-ok (traverse resource_lease_from_dict raw') _ h in
    subst (λ (x : ResourceLifecycleSnapshot). All Normal x.resources) (ok_injective last)
      (records_from_dict-Normal raw e)

pub snapshot_from_dict-Normal :
    (v : Value) {s : ResourceLifecycleSnapshot}
    → snapshot_from_dict v ≡ ok s
    → All Normal s.resources
unfolding snapshot_from_dict
snapshot_from_dict-Normal (obj fs) h =
    let (s, e, h) = >>=-eq-ok (snapshot_from_fields fs) _ h in
    let (_, last) = >>-eq-ok (validate_snapshot s) _ h in
    subst (λ (x : ResourceLifecycleSnapshot). All Normal x.resources) (ok_injective last)
      (snapshot_from_fields-Normal fs e)
snapshot_from_dict-Normal _ h = cc
