-- ===== src/Json/Refused.antt =====
-- A number of `json_value` that the scan of `_preflight_json` does not take.
use marimo_export.Prelude.{
  ℕ, [], ◌∷◌, Option, some, Bool, false, true, ltb, length, ◌≡◌, refl, arith, err, ok, ◌<◌,
}
use mathlib.Core.List.{append-nil}
use mathlib.Core.Path.{subst, ◌∙◌, sym, ap}
use marimo_export.Format.Texts.{Text}
use marimo_export.Json.Values.{Number, integer, number, json_value, long_number}
use marimo_export.Json.Canonical.{write_canonical}
use marimo_export.Json.Preflight.{
  Scan, take_number, max_number_chars, preflight_json, scan_loop, start, root_value, round,
}
use marimo_export.Json.Rounds.{scan, count_value_lem}
use marimo_export.Json.Tokens.{IsNumeral}
use marimo_export.Json.Written.{number_round}

take_long :
    (k : ℕ) (s : Scan) → max_number_chars < k → take_number (some (k, [])) s ≡ err long_number
take_long k s long = let e : ltb max_number_chars k ≡ true = ground (arith, long) in rw e refl

module _ (scan_string : Text → Option (Text × Text)) (match_number : Text → Option (ℕ × Text))
    (m : ℕ) where
  refused_from :
      (c : ℕ) (rest : Text)
      → round scan_string match_number m c rest (start (c ∷ rest)) ≡ err long_number
      → preflight_json scan_string match_number m (c ∷ rest) ≡ err long_number
  unfolding preflight_json scan_loop
  refused_from c rest h = rw h refl

  refused :
      (digits : Text)
      → IsNumeral match_number digits
      → max_number_chars < length digits
      → 0 < m
      → preflight_json scan_string match_number m digits ≡ err long_number
  refused digits w long room =
      let old = w.first ∷ w.more in
      let found : match_number old ≡ some (length digits, []) =
        ap match_number (sym (append-nil digits ∙ w.splits)) ∙ w.matched [] refl in
      let stepped : round scan_string match_number m w.first w.more (start old) ≡ err long_number =
        number_round scan_string match_number m 0 [] root_value refl (omega arith) (omega arith)
          w.first w.more w.starts
        ∙ rw (count_value_lem m 0 old [] root_value (omega arith) (omega arith))
            (rw found (take_long (length digits) (scan old 1 [] root_value) long)) in
      subst (λ z. preflight_json scan_string match_number m z ≡ err long_number) (sym w.splits)
        (refused_from w.first w.more stepped)

-- Of an integer whose written text is a JSON number longer than 1,024 characters, json_value
-- accepts the value where it accepts any at all, and the scan of its canonical text raises for
-- a number that is too long.
pub long_integer_is_refused :
    (quoted : Text → Text) (number_text : Number → Text) (scan_string : Text → Option (Text × Text))
    (match_number : Text → Option (ℕ × Text)) (max_values : ℕ) (negative : Bool) (n : ℕ)
    → IsNumeral match_number (number_text (integer negative n))
    → max_number_chars < length (number_text (integer negative n))
    → 0 < max_values
    → (json_value max_values (number (integer negative n)) ≡ ok (number (integer negative n), 1))
      × (preflight_json scan_string match_number max_values
            (write_canonical quoted number_text (number (integer negative n)))
          ≡ err long_number)
unfolding json_value write_canonical
long_integer_is_refused quoted number_text scan_string match_number m negative n w long room =
    let fits : ltb m 1 ≡ false = ground (arith, room) in
    (
      rw fits refl,
      refused scan_string match_number m (number_text (integer negative n)) w long room,
    )
