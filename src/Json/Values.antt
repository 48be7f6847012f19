-- ===== src/Json/Values.antt =====
-- The values of `_json.py`, as Python hands them over, and `json_value` with its two bounds.
-- A float is the number that its 64 bits spell. The result of a check is the value and the count.
use marimo_export.Prelude.{
  ℕ, zero, suc, Bool, ◌&&◌, not, List, [], ◌∷◌, Option, none, some, any, leb, ltb, ◌==◌, Result, ok,
  err, ◌>>=◌, ◌>>◌, raise_if, ◌+◌, ◌/◌, ◌%◌, ◌^◌,
}
use marimo_export.Format.Texts.{Text}

pub data JsonError : Type 0 where
  too_deep : JsonError
  too_many : JsonError
  bad_text : JsonError
  bad_key : JsonError
  not_finite : JsonError
  bad_type : JsonError
  duplicate_key : Text → JsonError
  invalid_syntax : JsonError
  long_number : JsonError
  out_of_fuel : JsonError

pub data Number : Type 0 where
  integer : Bool → ℕ → Number
  float : ℕ → Number

mutual
  pub data Value : Type 0 where
    null : Value
    boolean : Bool → Value
    text : Text → Value
    number : Number → Value
    array : Items → Value
    object : Fields → Value
    -- A value of any other type.
    other : Value

  pub data Items : Type 0 where
    no_items : Items
    item : Value → Items → Items

  -- A key that is not a `str` is `none`.
  pub data Fields : Type 0 where
    no_fields : Fields
    field : Option Text → Value → Fields → Fields

-- `math.isfinite`: the exponent is not all ones.
abbrev pub is_finite : ℕ → Bool
is_finite bits = not ((bits / 2 ^ 52) % 2048 == 2047)

abbrev pub is_surrogate : ℕ → Bool
is_surrogate c = leb 55296 c && leb c 57343

abbrev pub is_scalar_text : Text → Bool
is_scalar_text t = not (any is_surrogate t)

abbrev pub max_depth : ℕ
max_depth = 256

-- `json_string`
abbrev pub json_key : Option Text → Result JsonError (Option Text)
json_key none = err bad_key
json_key (some t) = raise_if (not (is_scalar_text t)) bad_text >> ok (some t)

-- `_count_json_value`
abbrev pub count_json_value : ℕ → ℕ → Result JsonError ℕ
count_json_value count max_values = raise_if (ltb max_values (count + 1)) too_many >> ok (count + 1)

abbrev pub check_number : Number → Result JsonError Unit
check_number (integer negative magnitude) = ok tt
check_number (float bits) = raise_if (not (is_finite bits)) not_finite

abbrev pub enter : ℕ → ℕ → ℕ → Result JsonError ℕ
enter max_values depth count =
    raise_if (ltb max_depth depth) too_deep >> count_json_value count max_values

abbrev pub Checked : Type 0 → Type 0
Checked A = Result JsonError (A × ℕ)

-- `_json_value`
unfoldable mutual
  pub json_value_from : Value → ℕ → ℕ → ℕ → Checked Value
  json_value_from null max_values depth count = enter max_values depth count >>= λ n. ok (null, n)
  json_value_from (boolean b) max_values depth count =
      enter max_values depth count >>= λ n. ok (boolean b, n)
  json_value_from (text t) max_values depth count = enter max_values depth count >>= λ n.
      (raise_if (not (is_scalar_text t)) bad_text >> ok (text t, n))
  json_value_from (number x) max_values depth count =
      enter max_values depth count >>= λ n. (check_number x >> ok (number x, n))
  json_value_from (array xs) max_values depth count = enter max_values depth count >>= λ n.
      json_items_from xs max_values (suc depth) n >>= λ (ys, m). ok (array ys, m)
  json_value_from (object fs) max_values depth count = enter max_values depth count >>= λ n.
      json_fields_from fs max_values (suc depth) n >>= λ (gs, m). ok (object gs, m)
  json_value_from other max_values depth count = enter max_values depth count >>= λ n. err bad_type

  pub json_items_from : Items → ℕ → ℕ → ℕ → Checked Items
  json_items_from no_items max_values depth count = ok (no_items, count)
  json_items_from (item x xs) max_values depth count =
      json_value_from x max_values depth count >>= λ (y, n).
      json_items_from xs max_values depth n >>= λ (ys, m). ok (item y ys, m)

  pub json_fields_from : Fields → ℕ → ℕ → ℕ → Checked Fields
  json_fields_from no_fields max_values depth count = ok (no_fields, count)
  json_fields_from (field k x fs) max_values depth count =
      count_json_value count max_values >>= λ c. json_key k >>= λ key.
      json_value_from x max_values depth c >>= λ (y, n).
      json_fields_from fs max_values depth n >>= λ (gs, m). ok (field key y gs, m)

unfoldable pub json_value : ℕ → Value → Checked Value
unfolding json_value_from
json_value max_values v = json_value_from v max_values 0 0

-- `json_value_count`; the stack's top comes first.
abbrev pub key_count : Fields → ℕ
key_count no_fields = 0
key_count (field k x fs) = suc (key_count fs)

abbrev pub push_items : Items → List Value → List Value
push_items no_items pending = pending
push_items (item x xs) pending = push_items xs (x ∷ pending)

abbrev pub push_fields : Fields → List Value → List Value
push_fields no_fields pending = pending
push_fields (field k x fs) pending = push_fields fs (x ∷ pending)

abbrev pub keys_in : Value → ℕ
keys_in (object fs) = key_count fs
keys_in _ = 0

abbrev pub push_children : Value → List Value → List Value
push_children (object fs) pending = push_fields fs pending
push_children (array xs) pending = push_items xs pending
push_children _ pending = pending

unfoldable pub count_loop : ℕ → ℕ → List Value → Option ℕ
count_loop zero count pending = none
count_loop (suc fuel) count [] = some count
count_loop (suc fuel) count (v ∷ pending) =
    count_loop fuel (count + 1 + keys_in v) (push_children v pending)

unfoldable pub json_value_count : ℕ → Value → Option ℕ
unfolding count_loop
json_value_count fuel v = count_loop fuel 0 (v ∷ [])
