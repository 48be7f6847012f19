-- ===== src/Json/Spelled.antt =====
-- Values whose dicts have distinct keys and whose texts and numbers are written as JSON.
use marimo_export.Prelude.{
  ℕ, Bool, true, not, ◌&&◌, List, [], ◌∷◌, ◌++◌, Option, some, ◌≡◌, arith, leb, length,
}
use marimo_export.Format.Texts.{Text, is_in}
use marimo_export.Json.Values.{
  Number, Value, null, boolean, text, number, array, object, other, Items, no_items, item, Fields,
  no_fields, field,
}
use marimo_export.Json.Canonical.{key_text}
use marimo_export.Json.Tokens.{Quoted, IsNumeral, IsScannable}
use marimo_export.Json.Preflight.{max_number_chars}
use marimo_export.Json.Joined.{both}

-- No key of the fields is in `seen` or stands before it.
abbrev pub new_keys : Fields → List Text → Bool
new_keys no_fields seen = true
new_keys (field k x fs) seen = not (is_in (key_text k) seen) && new_keys fs (key_text k ∷ seen)

unfoldable mutual
  pub is_distinct : Value → Bool
  is_distinct (array xs) = are_distinct xs
  is_distinct (object fs) = new_keys fs [] && are_distinct_fields fs
  is_distinct _ = true

  pub are_distinct : Items → Bool
  are_distinct no_items = true
  are_distinct (item x xs) = is_distinct x && are_distinct xs

  pub are_distinct_fields : Fields → Bool
  are_distinct_fields no_fields = true
  are_distinct_fields (field k x fs) = is_distinct x && are_distinct_fields fs

module _ (number_text : Number → Text) where
  -- The text of every number of the value is within the scan's limit.
  unfoldable mutual
    pub has_short_numbers : Value → Bool
    has_short_numbers (number x) = leb (length (number_text x)) max_number_chars
    has_short_numbers (array xs) = have_short_numbers xs
    has_short_numbers (object fs) = fields_have_short_numbers fs
    has_short_numbers _ = true

    pub have_short_numbers : Items → Bool
    have_short_numbers no_items = true
    have_short_numbers (item x xs) = has_short_numbers x && have_short_numbers xs

    pub fields_have_short_numbers : Fields → Bool
    fields_have_short_numbers no_fields = true
    fields_have_short_numbers (field k x fs) = has_short_numbers x && fields_have_short_numbers fs

module _ (quoted : Text → Text) (number_text : Number → Text)
    (scan_string : Text → Option (Text × Text)) (match_number : Text → Option (ℕ × Text)) where
  -- The written text of each string and number of the value is JSON's, and the scan of a key takes
  -- back what was written.
  unfoldable mutual
    pub Spelled : Value → Type 0
    Spelled (text t) = Quoted (quoted t)
    Spelled (number x) = IsNumeral match_number (number_text x)
    Spelled (array xs) = SpelledItems xs
    Spelled (object fs) = SpelledFields fs
    Spelled other = ⊥
    Spelled _ = Unit

    pub SpelledItems : Items → Type 0
    SpelledItems no_items = Unit
    SpelledItems (item x xs) = Spelled x × SpelledItems xs

    pub SpelledFields : Fields → Type 0
    SpelledFields no_fields = Unit
    SpelledFields (field k x fs) =
        ((rest : Text) → scan_string (quoted (key_text k) ++ rest) ≡ some (key_text k, rest))
        × Spelled x
        × SpelledFields fs

  -- The same, with every number's text within the limit.
  unfoldable mutual
    pub Scannable : Value → Type 0
    Scannable (text t) = Quoted (quoted t)
    Scannable (number x) = IsScannable match_number (number_text x)
    Scannable (array xs) = ScannableItems xs
    Scannable (object fs) = ScannableFields fs
    Scannable other = ⊥
    Scannable _ = Unit

    pub ScannableItems : Items → Type 0
    ScannableItems no_items = Unit
    ScannableItems (item x xs) = Scannable x × ScannableItems xs

    pub ScannableFields : Fields → Type 0
    ScannableFields no_fields = Unit
    ScannableFields (field k x fs) =
        ((rest : Text) → scan_string (quoted (key_text k) ++ rest) ≡ some (key_text k, rest))
        × Scannable x
        × ScannableFields fs

  mutual
    unfolding Spelled Scannable has_short_numbers

    pub Spelled-Scannable :
        (v : Value) → Spelled v → has_short_numbers number_text v ≡ true → Scannable v
    Spelled-Scannable null s h = s
    Spelled-Scannable (boolean b) s h = s
    Spelled-Scannable (text t) s h = s
    Spelled-Scannable (number x) s h = record { numeral = s; short = ground (arith, h) }
    Spelled-Scannable (array xs) s h = Spelled-ScannableItems xs s h
    Spelled-Scannable (object fs) s h = Spelled-ScannableFields fs s h
    Spelled-Scannable other s h = s

    Spelled-ScannableItems :
        (xs : Items)
        → SpelledItems xs
        → have_short_numbers number_text xs ≡ true
        → ScannableItems xs
    Spelled-ScannableItems no_items s h = tt
    Spelled-ScannableItems (item x xs) s h =
        let (here, there) =
          both (has_short_numbers number_text x) (have_short_numbers number_text xs) h in
        (Spelled-Scannable x s.0 here, Spelled-ScannableItems xs s.1 there)

    Spelled-ScannableFields :
        (fs : Fields)
        → SpelledFields fs
        → fields_have_short_numbers number_text fs ≡ true
        → ScannableFields fs
    Spelled-ScannableFields no_fields s h = tt
    Spelled-ScannableFields (field k x fs) s h =
        let (here, there) =
          both (has_short_numbers number_text x) (fields_have_short_numbers number_text fs) h in
        (s.0, Spelled-Scannable x s.1 here, Spelled-ScannableFields fs s.2 there)
