-- ===== src/Format/Names.antt =====
-- The names and the shapes of _format.py. A text is the list of its code points, and its UTF-8 form
-- is measured without being built.
use marimo_export.Prelude.{
  ℕ, String, str_eq, Bool, true, false, ◌&&◌, ◌||◌, List, [], ◌∷◌, length, any, sum_by, ltb, leb,
  ◌==◌, ◌≡◌, refl, if◌then◌else◌, Result, ok, err,
}
use marimo_export.Format.{codes}
use marimo_export.Format.Texts.{text_lt}

pub data FormatError : Type 0 where
  bad_shape : List String → List String → FormatError
  bad_name : FormatError

abbrev pub is_field : String → List String → Bool
is_field k names = any (λ n. str_eq n k) names

-- `a - b` on sets of fields
unfoldable pub difference : List String → List String → List String
difference [] b = []
difference (k ∷ a) b = let rest = difference a b in if is_field k b then rest else k ∷ rest

abbrev pub is_none_left : List String → Bool
is_none_left [] = true
is_none_left (k ∷ ks) = false

-- `sorted(...)` of a set of fields
unfoldable pub insert_name : String → List String → List String
unfolding text_lt
insert_name k [] = k ∷ []
insert_name k (j ∷ js) =
    let rest = insert_name k js in if text_lt (codes k) (codes j) then k ∷ j ∷ js else j ∷ rest

unfoldable pub sort_names : List String → List String
unfolding insert_name
sort_names [] = []
sort_names (k ∷ ks) = insert_name k (sort_names ks)

unfoldable pub exact_fields : List String → List String → Result FormatError (Unit {0})
unfolding difference sort_names
exact_fields actual expected =
    let missing = sort_names (difference expected actual) in
    let extra = sort_names (difference actual expected) in
    if is_none_left missing && is_none_left extra then ok tt else err (bad_shape missing extra)

-- `_EDGE_WHITESPACE`
unfoldable pub is_edge_whitespace : ℕ → Bool
is_edge_whitespace c =
    (leb 9 c && leb c 13)
    || (leb 28 c && leb c 32)
    || (c == 133)
    || (c == 160)
    || (c == 5760)
    || (leb 8192 c && leb c 8202)
    || (c == 8232)
    || (c == 8233)
    || (c == 8239)
    || (c == 8287)
    || (c == 12288)
    || (c == 65279)

abbrev pub last_code : ℕ → List ℕ → ℕ
last_code c [] = c
last_code c (d ∷ ds) = last_code d ds

unfoldable pub edge_whitespace : List ℕ → Bool
unfolding is_edge_whitespace
edge_whitespace [] = false
edge_whitespace (c ∷ cs) = is_edge_whitespace c || is_edge_whitespace (last_code c cs)

-- The bytes of a code point in UTF-8.
abbrev pub utf8_bytes : ℕ → ℕ
utf8_bytes c = if ltb c 128 then 1 else if ltb c 2048 then 2 else if ltb c 65536 then 3 else 4

abbrev pub is_control : ℕ → Bool
is_control c = ltb c 32 || (c == 127)

unfoldable pub bounded_printable : List ℕ → ℕ → Result FormatError (List ℕ)
unfolding edge_whitespace
bounded_printable text maximum =
    if length text == 0
      || edge_whitespace text
      || any is_control text
      || ltb maximum (sum_by utf8_bytes text)
    then err bad_name
    else ok text

unfoldable pub opaque_name : List ℕ → ℕ → Result FormatError (List ℕ)
opaque_name text maximum =
    if length text == 0 || ltb maximum (sum_by utf8_bytes text) then err bad_name else ok text

difference_head :
    (k : String) (a b : List String) → is_field k b ≡ true → difference (k ∷ a) b ≡ difference a b
unfolding difference
difference_head k a b h = rw h refl
