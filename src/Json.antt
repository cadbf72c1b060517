-- ===== src/Json.antt =====
-- The values that JSON text and the Python callers hand over, and `normalize_json_value` of
-- syvert/task_record.py. Keys of mappings are texts.
pub mod Normal
use syvert.Common.{
  ℕ, suc, ◌+◌, ◌-◌, ◌*◌, ◌/◌, ◌%◌, ◌^◌, String, ◌≡◌, refl, Bool, true, false, not, ◌&&◌, ◌||◌,
  Option, none, some, List, [], ◌∷◌, arith, ◌==◌, eqb, leb, is_empty, if◌then◌else◌, Result, ok,
  err, contract, require, ◌>>=◌, ◌>>◌, >>=-eq-ok, >>-eq-ok,
}

mutual
  pub data Value : Type 0 where
    null other : Value
    boolean : Bool → Value
    -- an `int` that is not negative, and -(n + 1)
    number negative : ℕ → Value
    -- a `float`, by the bits of its IEEE 754 double
    real : ℕ → Value
    text : String → Value
    -- a `list`, and a `tuple`
    arr tuple : Items → Value
    obj : Fields → Value

  pub data Fields : Type 0 where
    field : String → Value → Fields → Fields
    no_fields : Fields

  pub data Items : Type 0 where
    cons : Value → Items → Items
    no_items : Items

-- `payload.get(key)` on a mapping
unfoldable pub item : String → Fields → Value
item k no_fields = null
item k (field j v fs) = if j == k then v else item k fs

-- `key in payload`
unfoldable pub has_key : String → Fields → Bool
has_key k no_fields = false
has_key k (field j v fs) = if j == k then true else has_key k fs

unfoldable pub items : List Value → Items
items [] = no_items
items (v ∷ vs) = cons v (items vs)

unfoldable pub item_list : Items → List Value
item_list no_items = []
item_list (cons v vs) = v ∷ item_list vs

pub item_list-items : (vs : List Value) → item_list (items vs) ≡ vs
unfolding items item_list
item_list-items [] = refl
item_list-items (v ∷ vs) = rw (item_list-items vs)

-- `math.isfinite`: the exponent's eleven bits are not all set
unfoldable pub is_finite : ℕ → Bool
is_finite bits = not (eqb (bits / 2 ^ 52 % 2 ^ 11) 2047)

unfoldable mutual
  unfolding is_finite

  pub normalize_json_value : Value → Result Value
  normalize_json_value (real bits) = do require (is_finite bits) contract; ok (real bits)
  normalize_json_value (arr vs) = do ws ← normalize_items vs; ok (arr ws)
  normalize_json_value (tuple vs) = do ws ← normalize_items vs; ok (arr ws)
  normalize_json_value (obj fs) = do gs ← normalize_fields fs; ok (obj gs)
  normalize_json_value other = err contract
  normalize_json_value v = ok v

  pub normalize_items : Items → Result Items
  normalize_items no_items = ok no_items
  normalize_items (cons v vs) = do
    w ← normalize_json_value v
    ws ← normalize_items vs
    ok (cons w ws)

  pub normalize_fields : Fields → Result Fields
  normalize_fields no_fields = ok no_fields
  normalize_fields (field k v fs) = do
    require (not (is_empty k)) contract
    w ← normalize_json_value v
    gs ← normalize_fields fs
    ok (field k w gs)

-- An IEEE double that is the integer n, by its sign, exponent and mantissa.
magnitude_is : ℕ → ℕ → Bool
magnitude_is bits n =
    let exponent = bits / 2 ^ 52 % 2 ^ 11 in
    let mantissa = bits % 2 ^ 52 in
    if eqb exponent 0
    then eqb mantissa 0 && eqb n 0
    else if leb 1075 exponent
    then eqb n ((2 ^ 52 + mantissa) * 2 ^ (exponent - 1075))
    else eqb (2 ^ 52 + mantissa) (n * 2 ^ (1075 - exponent))

real_is : ℕ → ℕ → Bool
unfolding magnitude_is
real_is bits n = (eqb (bits / 2 ^ 63) 0 || eqb n 0) && magnitude_is bits n

real_is_negative : ℕ → ℕ → Bool
unfolding magnitude_is
real_is_negative bits n = not (eqb (bits / 2 ^ 63) 0) && magnitude_is bits (n + 1)

same_real : ℕ → ℕ → Bool
same_real a b = eqb a b || (eqb (a % 2 ^ 63) 0 && eqb (b % 2 ^ 63) 0)

abbrev bit : Bool → ℕ
bit true = 1
bit false = 0

-- `==` of two values that are no containers; a `bool` is the `int` 0 or 1
same_scalar : Value → Value → Bool
unfolding real_is real_is_negative same_real
same_scalar null null = true
same_scalar (text s) (text t) = s == t
same_scalar (boolean b) (boolean c) = eqb (bit b) (bit c)
same_scalar (boolean b) (number n) = eqb (bit b) n
same_scalar (boolean b) (real r) = real_is r (bit b)
same_scalar (number n) (boolean b) = eqb n (bit b)
same_scalar (number m) (number n) = eqb m n
same_scalar (number n) (real r) = real_is r n
same_scalar (negative m) (negative n) = eqb m n
same_scalar (negative n) (real r) = real_is_negative r n
same_scalar (real r) (boolean b) = real_is r (bit b)
same_scalar (real r) (number n) = real_is r n
same_scalar (real r) (negative n) = real_is_negative r n
same_scalar (real r) (real s) = same_real r s
same_scalar _ _ = false

find_field : String → Fields → Option Value
find_field k no_fields = none
find_field k (field j v fs) = if j == k then some v else find_field k fs

count_fields : Fields → ℕ
count_fields no_fields = 0
count_fields (field k v fs) = suc (count_fields fs)

-- `==` of values that `normalize_json_value` has accepted: mappings do not keep an order.
unfoldable mutual
  unfolding same_scalar find_field count_fields

  pub same_value : Value → Value → Bool
  same_value (arr vs) (arr ws) = same_items vs ws
  same_value (tuple vs) (tuple ws) = same_items vs ws
  same_value (obj fs) (obj gs) = eqb (count_fields fs) (count_fields gs) && same_fields fs gs
  same_value v w = same_scalar v w

  pub same_items : Items → Items → Bool
  same_items no_items no_items = true
  same_items (cons v vs) (cons w ws) = same_value v w && same_items vs ws
  same_items _ _ = false

  pub same_fields : Fields → Fields → Bool
  same_fields no_fields gs = true
  same_fields (field k v fs) gs = elim (find_field k gs) [
    | none ↦ false
    | some w ↦ same_value v w && same_fields fs gs
  ]
