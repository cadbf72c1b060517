-- ===== src/Json/Normal.antt =====
-- What `normalize_json_value` gives.
use syvert.Common.{
  ◌≡◌, Bool, true, false, not, ◌&&◌, arith, is_empty, ok, contract, require, ◌>>=◌, >>=-eq-ok,
  >>-eq-ok,
}
use syvert.Json.{
  Value, Items, Fields, null, other, boolean, number, negative, real, text, arr, tuple, obj, cons,
  no_items, field, no_fields, is_finite, normalize_json_value, normalize_items, normalize_fields,
}

-- What normalization gives is normal: it stays as it is.
mutual
  unfolding normalize_json_value

  normalize_twice :
      (v : Value) {w : Value} → normalize_json_value v ≡ ok w → normalize_json_value w ≡ ok w
  normalize_twice null h = cc
  normalize_twice other h = cc
  normalize_twice (boolean b) h = cc
  normalize_twice (number n) h = cc
  normalize_twice (negative n) h = cc
  normalize_twice (real bits) h = ground arith
  normalize_twice (text s) h = cc
  normalize_twice (arr vs) h =
      let (ws, e, f) = >>=-eq-ok (normalize_items vs) (λ ws. ok (arr ws)) h in
      ground (arith, f, normalize_items_twice vs e)
  normalize_twice (tuple vs) h =
      let (ws, e, f) = >>=-eq-ok (normalize_items vs) (λ ws. ok (arr ws)) h in
      ground (arith, f, normalize_items_twice vs e)
  normalize_twice (obj fs) h =
      let (gs, e, f) = >>=-eq-ok (normalize_fields fs) (λ gs. ok (obj gs)) h in
      ground (arith, f, normalize_fields_twice fs e)

  normalize_items_twice :
      (vs : Items) {ws : Items} → normalize_items vs ≡ ok ws → normalize_items ws ≡ ok ws
  normalize_items_twice no_items h = cc
  normalize_items_twice (cons v vs) h =
      let (w, e, f) =
        >>=-eq-ok (normalize_json_value v) (λ w. normalize_items vs >>= λ ws. ok (cons w ws)) h in
      let (ws, e', f') = >>=-eq-ok (normalize_items vs) (λ ws. ok (cons w ws)) f in
      ground (arith, f', normalize_twice v e, normalize_items_twice vs e')

  normalize_fields_twice :
      (fs : Fields) {gs : Fields} → normalize_fields fs ≡ ok gs → normalize_fields gs ≡ ok gs
  normalize_fields_twice no_fields h = cc
  normalize_fields_twice (field k v fs) h =
      let (key, rest) = >>-eq-ok (require (not (is_empty k)) contract) _ h in
      let (w, e, f) =
        >>=-eq-ok (normalize_json_value v) (λ w. normalize_fields fs >>= λ gs. ok (field k w gs))
          rest in
      let (gs, e', f') = >>=-eq-ok (normalize_fields fs) (λ gs. ok (field k w gs)) f in
      ground (arith, f', key, normalize_twice v e, normalize_fields_twice fs e')

pub normalize-normal :
    (v : Value) {w : Value} → normalize_json_value v ≡ ok w → normalize_json_value w ≡ ok w
normalize-normal v h = normalize_twice v h

-- A value that JSON has: no tuple, no other object of Python, no empty key, and finite floats only.
unfoldable mutual
  pub is_json : Value → Bool
  is_json (real bits) = is_finite bits
  is_json (arr vs) = all_json vs
  is_json (tuple vs) = false
  is_json (obj fs) = fields_json fs
  is_json other = false
  is_json v = true

  pub all_json : Items → Bool
  all_json no_items = true
  all_json (cons v vs) = is_json v && all_json vs

  pub fields_json : Fields → Bool
  fields_json no_fields = true
  fields_json (field k v fs) = not (is_empty k) && (is_json v && fields_json fs)

mutual
  unfolding normalize_json_value is_json

  value-is_json : (v : Value) {w : Value} → normalize_json_value v ≡ ok w → is_json w ≡ true
  value-is_json null h = ground (arith, h)
  value-is_json other h = cc
  value-is_json (boolean b) h = ground (arith, h)
  value-is_json (number n) h = ground (arith, h)
  value-is_json (negative n) h = ground (arith, h)
  value-is_json (real bits) h = ground (arith, h)
  value-is_json (text s) h = ground (arith, h)
  value-is_json (arr vs) h =
      let (ws, e, f) = >>=-eq-ok (normalize_items vs) (λ ws. ok (arr ws)) h in
      ground (arith, f, items-all_json vs e)
  value-is_json (tuple vs) h =
      let (ws, e, f) = >>=-eq-ok (normalize_items vs) (λ ws. ok (arr ws)) h in
      ground (arith, f, items-all_json vs e)
  value-is_json (obj fs) h =
      let (gs, e, f) = >>=-eq-ok (normalize_fields fs) (λ gs. ok (obj gs)) h in
      ground (arith, f, fields-fields_json fs e)

  items-all_json : (vs : Items) {ws : Items} → normalize_items vs ≡ ok ws → all_json ws ≡ true
  items-all_json no_items h = ground (arith, h)
  items-all_json (cons v vs) h =
      let (w, e, f) =
        >>=-eq-ok (normalize_json_value v) (λ w. normalize_items vs >>= λ ws. ok (cons w ws)) h in
      let (ws, e', f') = >>=-eq-ok (normalize_items vs) (λ ws. ok (cons w ws)) f in
      ground (arith, f', value-is_json v e, items-all_json vs e')

  fields-fields_json :
      (fs : Fields) {gs : Fields} → normalize_fields fs ≡ ok gs → fields_json gs ≡ true
  fields-fields_json no_fields h = ground (arith, h)
  fields-fields_json (field k v fs) h =
      let (key, rest) = >>-eq-ok (require (not (is_empty k)) contract) _ h in
      let (w, e, f) =
        >>=-eq-ok (normalize_json_value v) (λ w. normalize_fields fs >>= λ gs. ok (field k w gs))
          rest in
      let (gs, e', f') = >>=-eq-ok (normalize_fields fs) (λ gs. ok (field k w gs)) f in
      ground (arith, f', key, value-is_json v e, fields-fields_json fs e')

pub normalize-is_json : (v : Value) {w : Value} → normalize_json_value v ≡ ok w → is_json w ≡ true
normalize-is_json v h = value-is_json v h
