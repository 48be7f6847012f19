-- ===== src/Json/Canonical.antt =====
-- `_write_canonical` of `_json.py`. The text of a string after its opening quote, which is
-- `json.dumps`'s, and the text of a number, which is `str`'s or that of `_ecmascript_number`, are
-- parameters.
use marimo_export.Prelude.{true, false, [], ◌∷◌, ◌++◌, Option, none, some, if◌then◌else◌}
use marimo_export.Format.Texts.{Text, text_lt}
use marimo_export.Json.Values.{
  Number, Value, null, boolean, text, number, array, object, other, Items, no_items, item, Fields,
  no_fields, field,
}

abbrev pub key_text : Option Text → Text
key_text none = []
key_text (some t) = t

-- `sorted(value)`, the keys of a dict with their values
unfoldable pub insert_field : Option Text → Value → Fields → Fields
unfolding text_lt
insert_field k x no_fields = field k x no_fields
insert_field k x (field j y fs) =
    let rest = insert_field k x fs in
    if text_lt (key_text j) (key_text k) then field j y rest else field k x (field j y fs)

unfoldable pub sort_fields : Fields → Fields
unfolding insert_field
sort_fields no_fields = no_fields
sort_fields (field k x fs) = insert_field k x (sort_fields fs)

-- Every dict in the order of its writing.
unfoldable mutual
  unfolding sort_fields

  pub in_order : Value → Value
  in_order (array xs) = array (items_in_order xs)
  in_order (object fs) = object (sort_fields (fields_in_order fs))
  in_order v = v

  pub items_in_order : Items → Items
  items_in_order no_items = no_items
  items_in_order (item x xs) = item (in_order x) (items_in_order xs)

  pub fields_in_order : Fields → Fields
  fields_in_order no_fields = no_fields
  fields_in_order (field k x fs) = field k (in_order x) (fields_in_order fs)

module _ (quoted : Text → Text) (number_text : Number → Text) where
  abbrev pub dumps : Text → Text
  dumps t = b'"' ∷ quoted t

  unfoldable mutual
    pub write : Value → Text
    write null = b'n' ∷ b'u' ∷ b'l' ∷ b'l' ∷ []
    write (boolean true) = b't' ∷ b'r' ∷ b'u' ∷ b'e' ∷ []
    write (boolean false) = b'f' ∷ b'a' ∷ b'l' ∷ b's' ∷ b'e' ∷ []
    write (text t) = dumps t
    write (number n) = number_text n
    write (array xs) = b'[' ∷ write_items xs
    write (object fs) = b'{' ∷ write_fields fs
    write other = []

    -- The items and the closing bracket.
    pub write_items : Items → Text
    write_items no_items = b']' ∷ []
    write_items (item x xs) = write x ++ write_more xs

    pub write_more : Items → Text
    write_more no_items = b']' ∷ []
    write_more (item x xs) = b',' ∷ (write x ++ write_more xs)

    pub write_fields : Fields → Text
    write_fields no_fields = b'}' ∷ []
    write_fields (field k x fs) = dumps (key_text k) ++ (b':' ∷ (write x ++ write_rest fs))

    pub write_rest : Fields → Text
    write_rest no_fields = b'}' ∷ []
    write_rest (field k x fs) = b',' ∷ (dumps (key_text k) ++ (b':' ∷ (write x ++ write_rest fs)))

  -- `_write_canonical`
  unfoldable pub write_canonical : Value → Text
  unfolding write in_order
  write_canonical v = write (in_order v)
