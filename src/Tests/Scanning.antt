-- ===== src/Tests/Scanning.antt =====
-- An object with an array and a text, written, measured and scanned.
use marimo_export.Prelude.{
  suc, length, ◌≤◌, Bool-cases, inl, inr, ℕ, true, false, ◌&&◌, [], ◌∷◌, ◌++◌, Option, none, some,
  ◌≡◌, refl, arith, ok, err, ◌<◌, ◌+◌, ◌%◌, ◌⊎◌, ◌==◌, leb, if◌then◌else◌,
}
use marimo_export.Format.{codes}
use marimo_export.Format.Texts.{Text}
use marimo_export.Json.Values.{
  JsonError, Number, integer, Value, boolean, text, number, array, object, item, no_items, field,
  no_fields, json_value, json_value_count, max_depth, invalid_syntax, duplicate_key,
}
use marimo_export.Json.Measures.{size, depth, is_json}
use marimo_export.Json.Bounded.{json_value_lem}
use marimo_export.Json.Counted.{json_value_count_lem}
use marimo_export.Json.Canonical.{write_canonical}
use marimo_export.Json.Preflight.{preflight_json, done}
use marimo_export.Json.Rounds.{scan}
use marimo_export.Json.Tokens.{closed, literally}
use marimo_export.Json.Spelled.{Spelled, is_distinct, has_short_numbers}
use marimo_export.Json.Accepted.{canonical_passes}
use marimo_export.Json.Ending.{Ended}
use marimo_export.Json.Ends.{preflight_ends}
use mathlib.Core.Path.{ap, subst}

-- Texts with nothing to escape, and numbers of one digit.
abbrev quoted : Text → Text
quoted t = t ++ (b'"' ∷ [])

abbrev number_text : Number → Text
number_text (integer negative n) = (48 + n % 10) ∷ []
number_text _ = b'0' ∷ []

abbrev prepend : ℕ → Option (Text × Text) → Option (Text × Text)
prepend c none = none
prepend c (some (t, rest)) = some (c ∷ t, rest)

abbrev scan_string : Text → Option (Text × Text)
scan_string [] = none
scan_string (c ∷ rest) =
    let more = prepend c (scan_string rest) in if c == b'"' then some ([], rest) else more

abbrev match_number : Text → Option (ℕ × Text)
match_number [] = none
match_number (c ∷ rest) = some (1, rest)

abbrev numbers : Value
numbers = array (item (number (integer false 7)) (item (boolean true) no_items))

abbrev example : Value
example =
    object
      (field (some (codes "b")) numbers (field (some (codes "a")) (text (codes "x")) no_fields))

example_text : write_canonical quoted number_text example ≡ codes "{\"a\":\"x\",\"b\":[7,true]}"
unfolding write_canonical
example_text = refl

example-IsTaken : json_value 8 example ≡ ok (example, 7)
unfolding json_value
example-IsTaken = refl

example-Spelled : Spelled quoted number_text scan_string match_number example
unfolding Spelled
example-Spelled = (
  λ rest. refl,
  (
    record { first = b'7'; more = []; splits = refl; starts = refl; matched = λ rest h. refl },
    (tt, tt),
  ),
  (λ rest. refl, literally 120 (b'"' ∷ []) refl closed, tt),
)

example_short : has_short_numbers number_text example ≡ true
unfolding has_short_numbers
example_short = refl

example_distinct : is_distinct example ≡ true
unfolding is_distinct
example_distinct = refl

size_fits : size example < 8
unfolding size
size_fits = omega arith

canonical_passes_example :
    preflight_json scan_string match_number 8 (write_canonical quoted number_text example)
    ≡ ok (scan [] 7 [] done)
canonical_passes_example =
    canonical_passes quoted number_text scan_string match_number 8 example example 7 example-Spelled
      example_short example_distinct example-IsTaken

json_value_lem_example :
    (((is_json example && (leb (depth example) max_depth && leb (size example) 6)) ≡ true)
      × (json_value 6 example ≡ ok (example, size example)))
    ⊎ (((is_json example && (leb (depth example) max_depth && leb (size example) 6)) ≡ false)
        × (e : JsonError) × (json_value 6 example ≡ err e))
json_value_lem_example = json_value_lem example 6

json_value_count_lem_example : json_value_count 8 example ≡ some (size example)
json_value_count_lem_example = json_value_count_lem 8 example size_fits

-- A bracket that closes nothing, and a key that comes twice.
unopened : preflight_json scan_string match_number 8 (codes "[1]]") ≡ err invalid_syntax
unfolding preflight_json
unopened = refl

twice :
    preflight_json scan_string match_number 8 (codes "{\"a\":1,\"a\":2}")
    ≡ err (duplicate_key (codes "a"))
unfolding preflight_json
twice = refl

prepend-some :
    (c : ℕ) (o : Option (Text × Text)) (k r : Text)
    → prepend c o ≡ some (k, r)
    → (t : Text) × (o ≡ some (t, r))
prepend-some c none k r h = absurd (ground arith)
prepend-some c (some (t, s)) k r h =
    let same : s ≡ r = ap second_of h in (t, ap (λ z. some (t, z)) same)
  where
    second_of : Option (Text × Text) → Text
    second_of none = []
    second_of (some (a, b)) = b

scan_string-length : (t k r : Text) → scan_string t ≡ some (k, r) → length r ≤ length t
scan_string-length [] k r h = absurd (ground arith)
scan_string-length (c ∷ t) k r h = elim (Bool-cases (c == b'"')) [
  | inl closing ↦
      let same : t ≡ r = ap second_of (rw closing at h) in
      subst (λ z. length z ≤ suc (length t)) same (omega arith)
  | inr inside ↦
      let (j, e) = prepend-some c (scan_string t) k r (rw inside at h) in
      omega (arith, scan_string-length t j r e)
]
  where
    second_of : Option (Text × Text) → Text
    second_of none = []
    second_of (some (a, b)) = b

match_number-length :
    (c : ℕ) (t : Text) (k : ℕ) (r : Text) → match_number (c ∷ t) ≡ some (k, r) → length r ≤ length t
match_number-length c t k r h =
    let same : t ≡ r = ap rest_of h in subst (λ z. length z ≤ length t) same (omega arith)
  where
    rest_of : Option (ℕ × Text) → Text
    rest_of none = []
    rest_of (some (a, b)) = b

preflight_ends_example : Ended (preflight_json scan_string match_number 8 (codes "[{\"a\" 1"))
preflight_ends_example =
    preflight_ends scan_string match_number 8 (codes "[{\"a\" 1") scan_string-length
      match_number-length
