-- ===== src/Json/Written.antt =====
-- The scan takes every token that `_write_canonical` writes.
use marimo_export.Prelude.{
  ℕ, true, false, ◌||◌, List, [], ◌∷◌, ◌++◌, Option, some, length, ltb, ◌==◌, ◌≡◌, refl, arith, ok,
  ◌>>=◌, ◌+◌, ◌≤◌, length-append,
}
use mathlib.Core.Path.{subst, ◌∙◌, sym, ap}
use marimo_export.Format.Texts.{Text}
use marimo_export.Json.Values.{max_depth}
use marimo_export.Json.Preflight.{
  Root, Container, Scan, count_value, begin_value, moved_to, complete_value, round, take_literal,
  take_number, is_key_place, is_space, max_number_chars,
}
use marimo_export.Json.Characters.{continues_number}
use marimo_export.Json.Rounds.{
  scan, is_ready, begun, finished, finished_root, ready_inside, count_value_lem, begin_value_lem,
  complete_at_lem, finished_begun, Runs, one_round, chain,
}
use marimo_export.Json.Tokens.{Quoted, skip-Quoted, starts_number, IsScannable}

abbrev pub after : Text → ℕ → List Container → Root → Scan
after rest n cs r = scan rest n (finished cs) (finished_root cs r)

longer : (more rest : Text) → length rest ≤ length (more ++ rest)
longer more rest = omega (arith, length-append more rest)

pub completed :
    (n : ℕ) (old rest : Text) (cs : List Container) (r : Root)
    → is_ready cs r ≡ true
    → complete_value (moved_to rest (scan old n cs (begun cs r))) ≡ ok (after rest n cs r)
completed n old rest cs r h =
    complete_at_lem n rest cs (begun cs r) (ready_inside cs r h)
    ∙ ap (λ z. ok (scan rest n (finished cs) z)) (finished_begun cs r)

-- A value begins and is completed.
pub whole_value :
    (n : ℕ) (old rest : Text) (cs : List Container) (r : Root)
    → is_ready cs r ≡ true
    → (begin_value (scan old n cs r) >>= λ b. complete_value (moved_to rest b))
      ≡ ok (after rest n cs r)
whole_value n old rest cs r h =
    chain (begin_value (scan old n cs r)) (λ b. complete_value (moved_to rest b))
      (begin_value_lem n old cs r h) (completed n old rest cs r h)

take_number_lem :
    (k n : ℕ) (old rest : Text) (cs : List Container) (r : Root)
    → is_ready cs r ≡ true
    → continues_number rest ≡ false
    → k ≤ max_number_chars
    → take_number (some (k, rest)) (scan old n cs r) ≡ ok (after rest n cs r)
take_number_lem k n old rest cs r h g l =
    let short : ltb max_number_chars k ≡ false = ground (arith, l) in
    rw (g, short) (whole_value n old rest cs r h)

not_key : (cs : List Container) (r : Root) → is_ready cs r ≡ true → is_key_place cs ≡ false
not_key [] r h = refl
not_key (c ∷ cs) r h = ground arith

module _ (scan_string : Text → Option (Text × Text)) (match_number : Text → Option (ℕ × Text))
    (m n : ℕ) (cs : List Container) (r : Root) (ready : is_ready cs r ≡ true) (room : n + 1 ≤ m)
    (shallow : length cs ≤ max_depth) where
  pub literal_lem :
      (old rest : Text)
      → take_literal m (some rest) (scan old n cs r) ≡ ok (after rest (n + 1) cs r)
  literal_lem old rest =
      chain (count_value m (scan old n cs r)) _ (count_value_lem m n old cs r room shallow)
        (whole_value (n + 1) old rest cs r ready)

  pub string_lem :
      (q rest : Text)
      → Quoted q
      → round scan_string match_number m b'"' (q ++ rest) (scan (b'"' ∷ (q ++ rest)) n cs r)
        ≡ ok (after rest (n + 1) cs r)
  unfolding round
  string_lem q rest w =
      let old = b'"' ∷ (q ++ rest) in
      chain (count_value m (scan old n cs r)) _ (count_value_lem m n old cs r room shallow) (
        rw (not_key cs r ready) (
          chain (begin_value (scan old (n + 1) cs r)) _ (begin_value_lem (n + 1) old cs r ready)
            (rw (skip-Quoted q rest w) (completed (n + 1) old rest cs r ready))))

  pub number_round :
      (c : ℕ) (rest : Text)
      → starts_number c ≡ true
      → round scan_string match_number m c rest (scan (c ∷ rest) n cs r) ≡ (
          count_value m (scan (c ∷ rest) n cs r) >>= λ counted.
          take_number (match_number (c ∷ rest)) counted)
  unfolding round
  number_round c rest h =
      let e : is_space c ≡ false = ground (arith, h) in
      let e1 : (c == b'"') ≡ false = ground (arith, h) in
      let e2 : (c == b'{') ≡ false = ground (arith, h) in
      let e3 : (c == b'[') ≡ false = ground (arith, h) in
      let e4 : ((c == b']') || (c == b'}')) ≡ false = ground (arith, h) in
      let e5 : (c == b':') ≡ false = ground (arith, h) in
      let e6 : (c == b',') ≡ false = ground (arith, h) in rw (e, e1, e2, e3, e4, e5, e6, h) refl

  pub number_lem :
      (digits rest : Text)
      → IsScannable match_number digits
      → continues_number rest ≡ false
      → Runs scan_string match_number m (scan (digits ++ rest) n cs r) (after rest (n + 1) cs r)
  number_lem digits rest w h =
      let c = w.numeral.first in
      let old = c ∷ (w.numeral.more ++ rest) in
      let found : match_number old ≡ some (length digits, rest) =
        ap (λ z. match_number (z ++ rest)) (sym w.numeral.splits) ∙ w.numeral.matched rest h in
      let stepped =
        number_round c (w.numeral.more ++ rest) w.numeral.starts
        ∙ chain (count_value m (scan old n cs r)) _ (count_value_lem m n old cs r room shallow)
            (rw found (take_number_lem (length digits) (n + 1) old rest cs r ready h w.short)) in
      subst
        (λ z. Runs scan_string match_number m (scan (z ++ rest) n cs r) (after rest (n + 1) cs r))
        (sym w.numeral.splits)
        (one_round scan_string match_number m c (w.numeral.more ++ rest) n cs r
          (after rest (n + 1) cs r) stepped (longer w.numeral.more rest))
