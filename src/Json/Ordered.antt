-- ===== src/Json/Ordered.antt =====
-- A value and the value in the order of its writing have one count, one depth and the same keys.
use marimo_export.Prelude.{
  ℕ, suc, not, ◌&&◌, List, [], ◌∷◌, Option, ◌≡◌, refl, arith, Bool-cases, inl, inr,
}
use mathlib.Core.Path.{◌∙◌, ap}
use marimo_export.Format.Texts.{Text, is_in, text_lt}
use marimo_export.Json.Values.{
  Number, Value, null, boolean, text, number, array, object, other, Items, no_items, item, Fields,
  no_fields, field,
}
use marimo_export.Json.Measures.{
  size, size_items, size_fields, depth, depth_items, depth_fields, larger,
}
use marimo_export.Json.Canonical.{
  key_text, insert_field, sort_fields, in_order, items_in_order, fields_in_order,
}
use marimo_export.Json.Spelled.{
  new_keys, is_distinct, are_distinct, are_distinct_fields, Scannable, ScannableItems,
  ScannableFields,
}
use marimo_export.Json.SortedFields.{size-sort, depth-sort, distinct-sort, new-sort}

mutual
  unfolding in_order size

  pub size-in_order : (v : Value) → size (in_order v) ≡ size v
  size-in_order null = refl
  size-in_order (boolean b) = refl
  size-in_order (text t) = refl
  size-in_order (number n) = refl
  size-in_order (array xs) = ap suc (size-items xs)
  size-in_order (object fs) = ap suc (size-sort (fields_in_order fs) ∙ size-fields fs)
  size-in_order other = refl

  size-items : (xs : Items) → size_items (items_in_order xs) ≡ size_items xs
  size-items no_items = refl
  size-items (item x xs) = omega (arith, size-in_order x, size-items xs)

  size-fields : (fs : Fields) → size_fields (fields_in_order fs) ≡ size_fields fs
  size-fields no_fields = refl
  size-fields (field k x fs) = omega (arith, size-in_order x, size-fields fs)

mutual
  unfolding in_order depth

  pub depth-in_order : (v : Value) → depth (in_order v) ≡ depth v
  depth-in_order null = refl
  depth-in_order (boolean b) = refl
  depth-in_order (text t) = refl
  depth-in_order (number n) = refl
  depth-in_order (array xs) = depth-items xs
  depth-in_order (object fs) = depth-sort (fields_in_order fs) ∙ depth-fields fs
  depth-in_order other = refl

  depth-items : (xs : Items) → depth_items (items_in_order xs) ≡ depth_items xs
  depth-items no_items = refl
  depth-items (item x xs) =
      ap (λ n. larger (suc n) (depth_items (items_in_order xs))) (depth-in_order x)
      ∙ ap (larger (suc (depth x))) (depth-items xs)

  depth-fields : (fs : Fields) → depth_fields (fields_in_order fs) ≡ depth_fields fs
  depth-fields no_fields = refl
  depth-fields (field k x fs) =
      ap (λ n. larger (suc n) (depth_fields (fields_in_order fs))) (depth-in_order x)
      ∙ ap (larger (suc (depth x))) (depth-fields fs)

new-fields : (fs : Fields) (s : List Text) → new_keys (fields_in_order fs) s ≡ new_keys fs s
unfolding in_order
new-fields no_fields s = refl
new-fields (field k x fs) s =
    ap (◌&&◌ (not (is_in (key_text k) s))) (new-fields fs (key_text k ∷ s))

mutual
  unfolding in_order is_distinct

  pub distinct-in_order : (v : Value) → is_distinct (in_order v) ≡ is_distinct v
  distinct-in_order null = refl
  distinct-in_order (boolean b) = refl
  distinct-in_order (text t) = refl
  distinct-in_order (number n) = refl
  distinct-in_order (array xs) = distinct-items xs
  distinct-in_order (object fs) =
      ap (λ b. b && are_distinct_fields (sort_fields (fields_in_order fs)))
        (new-sort (fields_in_order fs) [] ∙ new-fields fs [])
      ∙ ap (◌&&◌ (new_keys fs [])) (distinct-sort (fields_in_order fs) ∙ distinct-fields fs)
  distinct-in_order other = refl

  distinct-items : (xs : Items) → are_distinct (items_in_order xs) ≡ are_distinct xs
  distinct-items no_items = refl
  distinct-items (item x xs) =
      ap (λ b. b && are_distinct (items_in_order xs)) (distinct-in_order x)
      ∙ ap (◌&&◌ (is_distinct x)) (distinct-items xs)

  distinct-fields :
      (fs : Fields) → are_distinct_fields (fields_in_order fs) ≡ are_distinct_fields fs
  distinct-fields no_fields = refl
  distinct-fields (field k x fs) =
      ap (λ b. b && are_distinct_fields (fields_in_order fs)) (distinct-in_order x)
      ∙ ap (◌&&◌ (is_distinct x)) (distinct-fields fs)

module _ (quoted : Text → Text) (number_text : Number → Text)
    (scan_string : Text → Option (Text × Text)) (match_number : Text → Option (ℕ × Text)) where
  abbrev Fine : Fields → Type 0
  Fine = ScannableFields quoted number_text scan_string match_number

  insert-Scannable :
      (k : Option Text) (x : Value) (fs : Fields) → Fine (field k x fs) → Fine (insert_field k x fs)
  unfolding insert_field Scannable
  insert-Scannable k x no_fields s = s
  insert-Scannable k x (field j y fs) s = elim (Bool-cases (text_lt (key_text j) (key_text k))) [
    | inr first ↦ rw first s
    | inl later ↦ rw later (s.2.0, s.2.1, insert-Scannable k x fs (s.0, s.1, s.2.2))
  ]

  sort-Scannable : (fs : Fields) → Fine fs → Fine (sort_fields fs)
  unfolding sort_fields Scannable
  sort-Scannable no_fields s = s
  sort-Scannable (field k x fs) s =
      insert-Scannable k x (sort_fields fs) (s.0, s.1, sort-Scannable fs s.2)

  mutual
    unfolding in_order Scannable

    pub in_order-Scannable :
        (v : Value)
        → Scannable quoted number_text scan_string match_number v
        → Scannable quoted number_text scan_string match_number (in_order v)
    in_order-Scannable null s = s
    in_order-Scannable (boolean b) s = s
    in_order-Scannable (text t) s = s
    in_order-Scannable (number n) s = s
    in_order-Scannable (array xs) s = items-Scannable xs s
    in_order-Scannable (object fs) s = sort-Scannable (fields_in_order fs) (fields-Scannable fs s)
    in_order-Scannable other s = s

    items-Scannable :
        (xs : Items)
        → ScannableItems quoted number_text scan_string match_number xs
        → ScannableItems quoted number_text scan_string match_number (items_in_order xs)
    items-Scannable no_items s = s
    items-Scannable (item x xs) s = (in_order-Scannable x s.0, items-Scannable xs s.1)

    fields-Scannable : (fs : Fields) → Fine fs → Fine (fields_in_order fs)
    fields-Scannable no_fields s = s
    fields-Scannable (field k x fs) s = (s.0, in_order-Scannable x s.1, fields-Scannable fs s.2)
