-- ===== src/Json/Brackets.antt =====
-- The scan at a bracket, a comma, a key and its colon.
use marimo_export.Prelude.{
  ℕ, suc, Bool, true, false, List, [], ◌∷◌, ◌++◌, Option, some, length, ◌≡◌, refl, arith, ◌+◌, ◌≤◌,
  length-append,
}
use marimo_export.Format.Texts.{Text, is_in}
use marimo_export.Json.Values.{max_depth}
use marimo_export.Json.Preflight.{
  Kind, in_object, in_array, Place, key_or_end, key, colon, value, value_or_end, after_value, Root,
  Container, count_value, begin_value, round, is_key_place, closes, after_comma,
}
use marimo_export.Json.Rounds.{
  scan, is_ready, is_inside, begun, count_value_lem, begin_value_lem, complete_at_lem, Runs,
  Runs-trans, one_round, chain,
}
use marimo_export.Json.Written.{after}

abbrev pub container : Kind → Place → List Text → Container
container kind place keys = record { kind = kind; place = place; keys = keys }

-- The places where a key may stand.
abbrev pub takes_key : Place → Bool
takes_key key_or_end = true
takes_key key = true
takes_key _ = false

module _ (scan_string : Text → Option (Text × Text)) (match_number : Text → Option (ℕ × Text))
    (m n : ℕ) (cs : List Container) (r : Root) where
  pub open_object :
      (rest : Text)
      → is_ready cs r ≡ true
      → n + 1 ≤ m
      → length cs ≤ max_depth
      → Runs scan_string match_number m
          (scan (b'{' ∷ rest) n cs r)
          (scan rest (n + 1) (container in_object key_or_end [] ∷ cs) (begun cs r))
  unfolding round
  open_object rest h room shallow =
      let old = b'{' ∷ rest in
      one_round scan_string match_number m b'{' rest n cs r
        (scan rest (n + 1) (container in_object key_or_end [] ∷ cs) (begun cs r))
        (chain (count_value m (scan old n cs r)) _ (count_value_lem m n old cs r room shallow)
          (chain (begin_value (scan old (n + 1) cs r)) _ (begin_value_lem (n + 1) old cs r h) refl))
        (omega arith)

  pub open_array :
      (rest : Text)
      → is_ready cs r ≡ true
      → n + 1 ≤ m
      → length cs ≤ max_depth
      → Runs scan_string match_number m
          (scan (b'[' ∷ rest) n cs r)
          (scan rest (n + 1) (container in_array value_or_end [] ∷ cs) (begun cs r))
  unfolding round
  open_array rest h room shallow =
      let old = b'[' ∷ rest in
      one_round scan_string match_number m b'[' rest n cs r
        (scan rest (n + 1) (container in_array value_or_end [] ∷ cs) (begun cs r))
        (chain (count_value m (scan old n cs r)) _ (count_value_lem m n old cs r room shallow)
          (chain (begin_value (scan old (n + 1) cs r)) _ (begin_value_lem (n + 1) old cs r h) refl))
        (omega arith)

  pub close_object :
      (place : Place) (keys : List Text) (rest : Text)
      → closes in_object place ≡ true
      → is_inside cs ≡ true
      → Runs scan_string match_number m
          (scan (b'}' ∷ rest) n (container in_object place keys ∷ cs) r)
          (after rest n cs r)
  unfolding round
  close_object place keys rest h inside =
      one_round scan_string match_number m b'}' rest n (container in_object place keys ∷ cs) r
        (after rest n cs r) (rw h (complete_at_lem n rest cs r inside)) (omega arith)

  pub close_array :
      (place : Place) (rest : Text)
      → closes in_array place ≡ true
      → is_inside cs ≡ true
      → Runs scan_string match_number m
          (scan (b']' ∷ rest) n (container in_array place [] ∷ cs) r)
          (after rest n cs r)
  unfolding round
  close_array place rest h inside =
      one_round scan_string match_number m b']' rest n (container in_array place [] ∷ cs) r
        (after rest n cs r) (rw h (complete_at_lem n rest cs r inside)) (omega arith)

  pub comma :
      (kind : Kind) (keys : List Text) (rest : Text)
      → Runs scan_string match_number m
          (scan (b',' ∷ rest) n (container kind after_value keys ∷ cs) r)
          (scan rest n (container kind (after_comma kind) keys ∷ cs) r)
  unfolding round
  comma kind keys rest =
      one_round scan_string match_number m b',' rest n (container kind after_value keys ∷ cs) r
        (scan rest n (container kind (after_comma kind) keys ∷ cs) r) refl (omega arith)

  -- A key that is new, with its colon.
  pub key_lem :
      (place : Place) (keys : List Text) (name quoted rest : Text)
      → takes_key place ≡ true
      → is_in name keys ≡ false
      → scan_string (quoted ++ (b':' ∷ rest)) ≡ some (name, b':' ∷ rest)
      → n + 1 ≤ m
      → suc (length cs) ≤ max_depth
      → Runs scan_string match_number m
          (scan (b'"' ∷ (quoted ++ (b':' ∷ rest))) n (container in_object place keys ∷ cs) r)
          (scan rest (n + 1) (container in_object value (name ∷ keys) ∷ cs) r)
  unfolding round
  key_lem place keys name quoted rest h new found room shallow =
      let inside = container in_object place keys ∷ cs in
      let old = b'"' ∷ (quoted ++ (b':' ∷ rest)) in
      let named = scan (b':' ∷ rest) (n + 1) (container in_object colon (name ∷ keys) ∷ cs) r in
      let placed : is_key_place inside ≡ true = h in
      Runs-trans scan_string match_number m (scan old n inside r) named
        (scan rest (n + 1) (container in_object value (name ∷ keys) ∷ cs) r)
        (one_round scan_string match_number m b'"' (quoted ++ (b':' ∷ rest)) n inside r named
          (chain (count_value m (scan old n inside r)) _
            (count_value_lem m n old inside r room shallow) (rw (placed, found, new) refl))
          (omega (arith, length-append quoted (b':' ∷ rest))))
        (one_round scan_string match_number m b':' rest (n + 1)
          (container in_object colon (name ∷ keys) ∷ cs) r
          (scan rest (n + 1) (container in_object value (name ∷ keys) ∷ cs) r) refl (omega arith))
