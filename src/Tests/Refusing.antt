-- ===== src/Tests/Refusing.antt =====
-- A number of 1,100 digits, which `json_value` accepts and `_preflight_json` refuses.
use marimo_export.Prelude.{
  ℕ, zero, suc, ◌+◌, false, [], ◌∷◌, ◌++◌, Option, some, ◌≡◌, refl, ap, ◌∙◌, sym, arith, ok, err,
  length, if◌then◌else◌,
}
use marimo_export.Format.Texts.{Text}
use marimo_export.Json.Values.{Number, integer, number, json_value, long_number}
use marimo_export.Json.Canonical.{write_canonical}
use marimo_export.Json.Characters.{is_digit, continues_number}
use marimo_export.Json.Preflight.{preflight_json}
use marimo_export.Json.Tokens.{IsNumeral}
use marimo_export.Json.Refused.{long_integer_is_refused}

unfoldable ones : ℕ → Text
ones zero = []
ones (suc n) = b'1' ∷ ones n

abbrev quoted : Text → Text
quoted t = t ++ (b'"' ∷ [])

-- The written text of a number, of as many digits as its magnitude says.
abbrev number_text : Number → Text
number_text (integer negative n) = ones n
number_text _ = b'0' ∷ []

abbrev scan_string : Text → Option (Text × Text)
scan_string t = some ([], t)

unfoldable take_digits : Text → ℕ × Text
take_digits [] = (0, [])
take_digits (c ∷ rest) =
    let more = take_digits rest in if is_digit c then (more.0 + 1, more.1) else (0, c ∷ rest)

abbrev match_number : Text → Option (ℕ × Text)
match_number t = some (take_digits t)

take_digits-bounded : (t : Text) → continues_number t ≡ false → take_digits t ≡ (0, t)
unfolding take_digits
take_digits-bounded [] h = refl
take_digits-bounded (c ∷ rest) h = let e : is_digit c ≡ false = ground (arith, h) in rw e refl

take_digits-ones :
    (n : ℕ) (rest : Text) → continues_number rest ≡ false → take_digits (ones n ++ rest) ≡ (n, rest)
unfolding take_digits ones
take_digits-ones zero rest h = take_digits-bounded rest h
take_digits-ones (suc n) rest h = rw (take_digits-ones n rest h) (ap (λ k. (k, rest)) (omega arith))

length-ones : (n : ℕ) → length (ones n) ≡ n
unfolding ones
length-ones zero = refl
length-ones (suc n) = omega (arith, length-ones n)

ones-IsNumeral : (n : ℕ) → IsNumeral match_number (ones (suc n))
unfolding ones
ones-IsNumeral n = record {
  first = b'1';
  more = ones n;
  splits = refl;
  starts = refl;
  matched = λ rest h.
      ap (λ p. some p)
        (take_digits-ones (suc n) rest h ∙ ap (λ k. (k, rest)) (sym (length-ones (suc n))));
}

abbrev digits : ℕ
digits = 1100

long_integer_is_refused_example :
    (json_value 8 (number (integer false digits)) ≡ ok (number (integer false digits), 1))
    × (preflight_json scan_string match_number 8
          (write_canonical quoted number_text (number (integer false digits)))
        ≡ err long_number)
long_integer_is_refused_example =
    long_integer_is_refused quoted number_text scan_string match_number 8 false digits
      (ones-IsNumeral 1099) (rw (length-ones digits) (omega arith)) (omega arith)
