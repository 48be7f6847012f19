-- ===== src/Json/Accepted.antt =====
-- The canonical text of a value that `json_value` accepts passes the scan before a decoding.
use marimo_export.Prelude.{
  ℕ, suc, true, [], Option, length, ◌≡◌, refl, arith, ok, ◌+◌, ◌-◌, ◌≤◌, inl, inr, ok-injective,
}
use mathlib.Core.List.{append-nil}
use mathlib.Core.Path.{subst, ◌∙◌, sym, ap}
use marimo_export.Format.Texts.{Text}
use marimo_export.Json.Values.{Number, Value, json_value, max_depth}
use marimo_export.Json.Measures.{size, depth}
use marimo_export.Json.Bounded.{json_value_lem}
use marimo_export.Json.Canonical.{write, write_canonical, in_order}
use marimo_export.Json.Preflight.{root_value, done, start, preflight_json, scan_loop}
use marimo_export.Json.Rounds.{scan, Runs}
use marimo_export.Json.Spelled.{
  is_distinct, Spelled, Scannable, has_short_numbers, Spelled-Scannable,
}
use marimo_export.Json.Roundtrip.{value_run}
use marimo_export.Json.Ordered.{
  size-in_order, depth-in_order, distinct-in_order, in_order-Scannable,
}

fuel_left : (r n : ℕ) → r ≤ n → r + suc (n - r) ≡ suc n
fuel_left r n h = omega arith

module _ (quoted : Text → Text) (number_text : Number → Text)
    (scan_string : Text → Option (Text × Text)) (match_number : Text → Option (ℕ × Text))
    (m : ℕ) where
  finished_scan :
      (input : Text) (k : ℕ)
      → Runs scan_string match_number m (start input) (scan [] k [] done)
      → preflight_json scan_string match_number m input ≡ ok (scan [] k [] done)
  unfolding preflight_json scan_loop
  finished_scan input k w =
      subst (λ j. scan_loop scan_string match_number m j (start input) ≡ ok (scan [] k [] done))
        (fuel_left w.rounds (length input) (omega (arith, w.paid)))
        (w.runs (suc (length input - w.rounds)))

  written :
      (v : Value)
      → Scannable quoted number_text scan_string match_number v
      → is_distinct v ≡ true
      → depth v ≤ max_depth
      → size v ≤ m
      → preflight_json scan_string match_number m (write quoted number_text v)
        ≡ ok (scan [] (size v) [] done)
  written v s d deep room =
      let run =
        value_run quoted number_text scan_string match_number m v 0 (size v) [] [] root_value s d
          refl refl (omega (arith, deep)) (omega arith) room in
      finished_scan (write quoted number_text v) (size v) (
        subst (λ z. Runs scan_string match_number m (start z) (scan [] (size v) [] done))
          (append-nil (write quoted number_text v)) run)

-- Where json_value accepts a value with a count, no dict of the value lists a key twice and
-- the text of every number is at most 1,024 characters long, the scan of the canonical text of
-- the value that it returns ends outside every container, with the same count and with nothing
-- left, wherever the text written for each of its strings and numbers is JSON's and Python's
-- scan of a key gives back the key.
pub canonical_passes :
    (quoted : Text → Text) (number_text : Number → Text) (scan_string : Text → Option (Text × Text))
    (match_number : Text → Option (ℕ × Text)) (max_values : ℕ) (v w : Value) (count : ℕ)
    → Spelled quoted number_text scan_string match_number v
    → has_short_numbers number_text v ≡ true
    → is_distinct v ≡ true
    → json_value max_values v ≡ ok (w, count)
    → preflight_json scan_string match_number max_values (write_canonical quoted number_text w)
      ≡ ok (scan [] count [] done)
unfolding write_canonical
canonical_passes quoted number_text scan_string match_number m v w count s short d h =
    elim (json_value_lem v m) [
      | inr (bad, e, f) ↦ absurd (ground (arith, f, h))
      | inl (fits, f) ↦
          let same = ok-injective (sym f ∙ h) in
          let same_value : v ≡ w = ap (λ p. p.0) same in
          let same_count : size v ≡ count = ap (λ p. p.1) same in
          let deep : depth v ≤ max_depth = ground (arith, fits) in
          let room : size v ≤ m = ground (arith, fits) in
          let passed =
            written quoted number_text scan_string match_number m (in_order v)
              (in_order-Scannable quoted number_text scan_string match_number v
                (Spelled-Scannable quoted number_text scan_string match_number v s short))
              (distinct-in_order v ∙ d) (subst (λ n. n ≤ max_depth) (sym (depth-in_order v)) deep)
              (subst (λ n. n ≤ m) (sym (size-in_order v)) room) in
          subst
            (λ z.
              preflight_json scan_string match_number m (write_canonical quoted number_text z)
              ≡ ok (scan [] count [] done))
            same_value (passed ∙ ap (λ n. ok (scan [] n [] done)) (size-in_order v ∙ same_count))
    ]
