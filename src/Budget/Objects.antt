-- ===== src/Budget/Objects.antt =====
-- What `_object` adds up for the members of an object is the cost of the object itself.
use marimo_export.Prelude.{
  ℕ, suc, List, [], ◌∷◌, ◌++◌, length, sum_by, sum_by-append, ◌≡◌, refl, arith, ◌+◌, ◌-◌,
}
use mathlib.Core.Path.{ap}
use marimo_export.Format.Names.{utf8_bytes}
use marimo_export.Format.Texts.{Text}
use marimo_export.Json.Values.{Number, Value, object, Fields, no_fields, field}
use marimo_export.Json.Measures.{size, size_fields}
use marimo_export.Json.Canonical.{
  key_text, dumps, write, write_fields, write_rest, write_canonical, in_order, fields_in_order,
  sort_fields,
}
use marimo_export.Json.SortedFields.{sort_lem}
use marimo_export.Budget.{Cost, total, object_cost, cost, member}

abbrev bytes_of : Text → ℕ
bytes_of = sum_by utf8_bytes

module _ (quoted : Text → Text) (number_text : Number → Text) where
  -- The members of an object, each at its cost.
  unfoldable pub field_members : Fields → List Cost
  field_members no_fields = []
  field_members (field k x fs) =
      member quoted number_text (key_text k) (cost quoted number_text x) ∷ field_members fs

  pair_bytes : Text → Value → ℕ
  pair_bytes k x = bytes_of (dumps quoted number_text k) + 1 + bytes_of (write quoted number_text x)

  weight : Fields → ℕ
  weight no_fields = 0
  weight (field k x fs) = pair_bytes (key_text k) x + weight fs

  field_count : Fields → ℕ
  field_count no_fields = 0
  field_count (field k x fs) = suc (field_count fs)

  rest_bytes :
      (fs : Fields) → bytes_of (write_rest quoted number_text fs) ≡ 1 + weight fs + field_count fs
  unfolding write weight field_count pair_bytes
  rest_bytes no_fields = refl
  rest_bytes (field k x fs) = omega (
    arith,
    sum_by-append utf8_bytes (dumps quoted number_text (key_text k))
        (b':' ∷ (write quoted number_text x ++ write_rest quoted number_text fs)),
    sum_by-append utf8_bytes (write quoted number_text x) (write_rest quoted number_text fs),
    rest_bytes fs,
  )

  fields_bytes :
      (fs : Fields)
      → bytes_of (write_fields quoted number_text fs) ≡ 1 + weight fs + (field_count fs - 1)
  unfolding write weight field_count pair_bytes
  fields_bytes no_fields = refl
  fields_bytes (field k x fs) = omega (
    arith,
    sum_by-append utf8_bytes (dumps quoted number_text (key_text k))
        (b':' ∷ (write quoted number_text x ++ write_rest quoted number_text fs)),
    sum_by-append utf8_bytes (write quoted number_text x) (write_rest quoted number_text fs),
    rest_bytes fs,
  )

  weight-sort : (fs : Fields) → weight (sort_fields fs) ≡ weight fs
  unfolding weight
  weight-sort fs =
      sort_lem ℕ weight (λ k j x y fs gs h. omega (arith, h)) (λ k x fs gs h. omega (arith, h)) fs

  field_count-sort : (fs : Fields) → field_count (sort_fields fs) ≡ field_count fs
  unfolding field_count
  field_count-sort fs =
      sort_lem ℕ field_count (λ k j x y fs gs h. omega (arith, h)) (λ k x fs gs h. omega (arith, h))
        fs

  weight-in_order : (fs : Fields) → weight (fields_in_order fs) ≡ (total (field_members fs)).bytes
  unfolding weight pair_bytes field_members member cost write_canonical in_order
  weight-in_order no_fields = refl
  weight-in_order (field k x fs) = omega (arith, weight-in_order fs)

  field_count-in_order :
      (fs : Fields) → field_count (fields_in_order fs) ≡ length (field_members fs)
  unfolding field_count field_members in_order
  field_count-in_order no_fields = refl
  field_count-in_order (field k x fs) = ap suc (field_count-in_order fs)

  values_lem : (fs : Fields) → size_fields fs ≡ (total (field_members fs)).values
  unfolding field_members member cost size
  values_lem no_fields = refl
  values_lem (field k x fs) = omega (arith, values_lem fs)

  -- The values and bytes that _object adds up for the members of an object, each at the cost
  -- of its key and its value, are the values and bytes of the object's own canonical text.
  pub object_cost_lem :
      (fs : Fields)
      → ((cost quoted number_text (object fs)).values ≡ (object_cost (field_members fs)).values)
        × ((cost quoted number_text (object fs)).bytes ≡ (object_cost (field_members fs)).bytes)
  unfolding cost write_canonical write in_order size
  object_cost_lem fs =
      let gs = sort_fields (fields_in_order fs) in
      (
        omega (arith, values_lem fs),
        omega (
          arith,
          fields_bytes gs,
          weight-sort (fields_in_order fs),
          weight-in_order fs,
          field_count-sort (fields_in_order fs),
          field_count-in_order fs,
        ),
      )
