-- ===== src/Json/Measures.antt =====
-- The count, the depth and the types of a JSON value.
use marimo_export.Prelude.{
  ℕ, suc, Bool, true, false, ◌&&◌, Option, none, some, ltb, if◌then◌else◌, ◌+◌,
}
use marimo_export.Format.Texts.{Text}
use marimo_export.Json.Values.{
  Number, integer, float, Value, null, boolean, text, number, array, object, other, Items, no_items,
  item, Fields, no_fields, field, is_finite, is_scalar_text,
}

-- The values and the object keys.
unfoldable mutual
  pub size : Value → ℕ
  size (array xs) = suc (size_items xs)
  size (object fs) = suc (size_fields fs)
  size _ = 1

  pub size_items : Items → ℕ
  size_items no_items = 0
  size_items (item x xs) = size x + size_items xs

  pub size_fields : Fields → ℕ
  size_fields no_fields = 0
  size_fields (field k x fs) = 1 + size x + size_fields fs

abbrev pub larger : ℕ → ℕ → ℕ
larger a b = if ltb a b then b else a

unfoldable mutual
  pub depth : Value → ℕ
  depth (array xs) = depth_items xs
  depth (object fs) = depth_fields fs
  depth _ = 0

  pub depth_items : Items → ℕ
  depth_items no_items = 0
  depth_items (item x xs) = larger (suc (depth x)) (depth_items xs)

  pub depth_fields : Fields → ℕ
  depth_fields no_fields = 0
  depth_fields (field k x fs) = larger (suc (depth x)) (depth_fields fs)

abbrev pub is_json_key : Option Text → Bool
is_json_key none = false
is_json_key (some t) = is_scalar_text t

abbrev pub is_json_number : Number → Bool
is_json_number (integer negative magnitude) = true
is_json_number (float bits) = is_finite bits

unfoldable mutual
  pub is_json : Value → Bool
  is_json null = true
  is_json (boolean b) = true
  is_json (text t) = is_scalar_text t
  is_json (number x) = is_json_number x
  is_json (array xs) = are_json xs
  is_json (object fs) = are_json_fields fs
  is_json other = false

  pub are_json : Items → Bool
  are_json no_items = true
  are_json (item x xs) = is_json x && are_json xs

  pub are_json_fields : Fields → Bool
  are_json_fields no_fields = true
  are_json_fields (field k x fs) = is_json_key k && is_json x && are_json_fields fs
