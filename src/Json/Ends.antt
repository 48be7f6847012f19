-- ===== src/Json/Ends.antt =====
-- The scan of every text ends: each round takes at least the character that it stands at.
use marimo_export.Prelude.{
  ℕ, zero, suc, ◌||◌, List, [], ◌∷◌, Option, none, some, length, ◌==◌, ◌≡◌, refl, arith, ◌>>=◌, ◌≤◌,
  ◌<◌, Result-cases, ◌⊎◌, Bool-cases, inl, inr,
}
use mathlib.Core.Path.{subst}
use marimo_export.Format.Texts.{Text}
use marimo_export.Json.Characters.{plain, skip_from, is_digit}
use marimo_export.Json.Preflight.{
  Kind, in_object, in_array, Place, key_or_end, value_or_end, Root, Container, Scan, count_value,
  begin_value, complete_value, moved_to, is_key_place, take_key, take_number, drop_prefix,
  literal_rest, or_else, literals, take_literal, is_space, on_quote, on_open, round, scan_loop,
  preflight_json, root_value,
}
use marimo_export.Json.Rounds.{scan}
use marimo_export.Json.Ending.{
  Takes, Ended, bind-Takes, if-Takes, Takes-Raises, count-Takes, begin-Takes, complete-Takes,
  skip-Raises, skip-length, Takes-le, value-Takes, close-Takes, colon-Takes, comma-Takes,
  take_key-Takes, take_number-Takes,
}

drop-length : (p xs r : Text) → drop_prefix p xs ≡ some r → length r ≤ length xs
drop-length [] xs r h =
    let same : xs ≡ r = some-injective h in subst (λ z. length z ≤ length xs) same (omega arith)
  where
    some-injective : {x y : Text} → Path (Option Text) (some x) (some y) → x ≡ y
    some-injective h = cc
drop-length (p ∷ ps) [] r h = absurd (ground arith)
drop-length (p ∷ ps) (x ∷ xs) r h = elim (Bool-cases (p == x)) [
  | inl same ↦ omega (arith, drop-length ps xs r (rw same at h))
  | inr differs ↦ absurd (ground (arith, h, differs))
]

literal-Takes :
    (m : ℕ) (rest : Text) (s : Scan) (o : Option Text)
    → ((r : Text) → o ≡ some r → length r ≤ length rest)
    → Takes (length rest) (take_literal m o s)
literal-Takes m rest s none h = refl
literal-Takes m rest s (some r) h =
    Takes-le (length r) (length rest) (take_literal m (some r) s) (h r refl) (
      bind-Takes (length r) (count_value m s)
        (λ counted. begin_value counted >>= λ begun. complete_value (moved_to r begun))
        (Takes-Raises (length s.left) (count_value m s) (count-Takes m s))
        (λ counted e. value-Takes r counted))

-- A literal is no shorter than the character that it starts with.
first_literal :
    (p : ℕ) (ps xs r : Text) (c : ℕ) → drop_prefix (p ∷ ps) (c ∷ xs) ≡ some r → length r ≤ length xs
first_literal p ps xs r c h = elim (Bool-cases (p == c)) [
  | inl same ↦ drop-length ps xs r (rw same at h)
  | inr differs ↦ absurd (ground (arith, h, differs))
]

abbrev IsFull : List Text → Type 0
IsFull [] = Unit
IsFull ([] ∷ ls) = ⊥
IsFull ((p ∷ ps) ∷ ls) = IsFull ls

or_else-some :
    (o more : Option Text) (r : Text) → or_else o more ≡ some r → (o ≡ some r) ⊎ (more ≡ some r)
or_else-some none more r h = inr h
or_else-some (some t) more r h = inl h

literal-length :
    (ls : List Text) (c : ℕ) (xs r : Text)
    → IsFull ls
    → literal_rest ls (c ∷ xs) ≡ some r
    → length r ≤ length xs
literal-length [] c xs r f h = absurd (ground arith)
literal-length ([] ∷ ls) c xs r f h = absurd f
literal-length ((p ∷ ps) ∷ ls) c xs r f h =
    elim (or_else-some (drop_prefix (p ∷ ps) (c ∷ xs)) (literal_rest ls (c ∷ xs)) r h) [
      | inl e ↦ first_literal p ps xs r c e
      | inr e ↦ literal-length ls c xs r f e
    ]

module _ (scan_string : Text → Option (Text × Text)) (match_number : Text → Option (ℕ × Text))
    (m : ℕ) (scans : (t k r : Text) → scan_string t ≡ some (k, r) → length r ≤ length t)
    (matches : (c : ℕ) (t : Text) (k : ℕ) (r : Text)
      → match_number (c ∷ t) ≡ some (k, r)
      → length r ≤ length t) where
  quote-Takes :
      (rest : Text) (s : Scan) → Takes (length rest) (on_quote scan_string match_number m rest s)
  quote-Takes rest s =
      bind-Takes (length rest) (count_value m s) _
        (Takes-Raises (length s.left) (count_value m s) (count-Takes m s))
        λ counted e.
          if-Takes (length rest) (is_key_place counted.containers)
            (take_key (scan_string rest) counted)
            (begin_value counted >>= λ begun.
              skip_from rest plain >>= λ after. complete_value (moved_to after begun))
            (take_key-Takes (length rest) (scan_string rest) counted (λ t r h. scans rest t r h))
            (bind-Takes (length rest) (begin_value counted) _
              (Takes-Raises (length counted.left) (begin_value counted)
                (begin-Takes counted.containers counted))
              λ begun f.
                bind-Takes (length rest) (skip_from rest plain) _ (skip-Raises rest plain)
                  λ after g.
                    Takes-le (length after) (length rest) (complete_value (moved_to after begun))
                      (skip-length rest plain after g)
                      (complete-Takes begun.containers (moved_to after begun)))

  open-Takes :
      (kind : Kind) (place : Place) (rest : Text) (s : Scan)
      → Takes (length rest) (on_open scan_string match_number m kind place rest s)
  open-Takes kind place rest s =
      bind-Takes (length rest) (count_value m s) _
        (Takes-Raises (length s.left) (count_value m s) (count-Takes m s))
        λ counted e.
          bind-Takes (length rest) (begin_value counted) _
            (Takes-Raises (length counted.left) (begin_value counted)
              (begin-Takes counted.containers counted))
            λ begun f. omega arith

  number-Takes :
      (c : ℕ) (rest : Text) (s : Scan)
      → Takes
          (length rest)
          (count_value m s >>= λ counted. take_number (match_number (c ∷ rest)) counted)
  number-Takes c rest s =
      bind-Takes (length rest) (count_value m s) _
        (Takes-Raises (length s.left) (count_value m s) (count-Takes m s))
        λ counted e.
          take_number-Takes (length rest) (match_number (c ∷ rest)) counted
            (λ k r h. matches c rest k r h)

  round-Takes :
      (c : ℕ) (rest : Text) (s : Scan)
      → Takes (length rest) (round scan_string match_number m c rest s)
  unfolding round
  round-Takes c rest s =
      let n = length rest in
      let if_ = if-Takes n in
      if_ (is_space c) _ _ (omega arith) (
        if_ (c == b'"') _ _ (quote-Takes rest s) (
          if_ (c == b'{') _ _ (open-Takes in_object key_or_end rest s) (
            if_ (c == b'[') _ _ (open-Takes in_array value_or_end rest s) (
              if_ ((c == b']') || (c == b'}')) _ _ (close-Takes c rest s.containers s) (
                if_ (c == b':') _ _ (colon-Takes rest s.containers s) (
                  if_ (c == b',') _ _ (comma-Takes rest s.containers s) (
                    if_ ((c == b'-') || is_digit c) _ _ (number-Takes c rest s) (
                      literal-Takes m rest s (literal_rest literals (c ∷ rest))
                        λ r h. literal-length literals c rest r tt h))))))))

  loop-Ended :
      (fuel : ℕ) (l : Text) (n : ℕ) (cs : List Container) (r : Root)
      → length l < fuel
      → Ended (scan_loop scan_string match_number m fuel (scan l n cs r))
  unfolding scan_loop
  loop-Ended zero l n cs r h = absurd (omega arith)
  loop-Ended (suc fuel) [] n cs r h = refl
  loop-Ended (suc fuel) (c ∷ rest) n cs r h =
      let taken = round-Takes c rest (scan (c ∷ rest) n cs r) in
      elim (Result-cases (round scan_string match_number m c rest (scan (c ∷ rest) n cs r))) [
        | inl (x, f) ↦ rw f (rw f at taken)
        | inr (t, f) ↦
            let shorter : length t.left ≤ length rest = rw f at taken in
            rw f (loop-Ended fuel t.left t.count t.containers t.root (omega (arith, shorter, h)))
      ]

-- The scan of any text, well formed or not, ends on its fuel: with nothing left of the text,
-- or with an error that is not the end of the fuel, wherever Python's scan of a key leaves no
-- more than it was given, and its match of a number no more than what follows the first
-- character.
pub preflight_ends :
    (scan_string : Text → Option (Text × Text)) (match_number : Text → Option (ℕ × Text)) (m : ℕ)
    (input : Text)
    → ((t k r : Text) → scan_string t ≡ some (k, r) → length r ≤ length t)
    → ((c : ℕ) (t : Text) (k : ℕ) (r : Text)
        → match_number (c ∷ t) ≡ some (k, r)
        → length r ≤ length t)
    → Ended (preflight_json scan_string match_number m input)
unfolding preflight_json
preflight_ends scan_string match_number m input scans matches =
    loop-Ended scan_string match_number m scans matches (suc (length input)) input 0 [] root_value
      (omega arith)
