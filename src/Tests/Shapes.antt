-- ===== src/Tests/Shapes.antt =====
-- The fields of a record with one that is missing and one that is not known.
use marimo_export.Prelude.{String, List, [], ◌∷◌, ◌≡◌, refl, err}
use marimo_export.Format.Names.{exact_fields, bad_shape, bounded_printable, bad_name}

abbrev actual : List String
actual = "schema" ∷ "extra" ∷ []

abbrev expected : List String
expected = "schema" ∷ "states" ∷ []

wrong_shape : exact_fields actual expected ≡ err (bad_shape ("states" ∷ []) ("extra" ∷ []))
unfolding exact_fields
wrong_shape = refl

-- A name may not end in a space.
spaced_name : bounded_printable (97 ∷ 32 ∷ []) 256 ≡ err bad_name
unfolding bounded_printable
spaced_name = refl
