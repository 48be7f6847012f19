-- ===== src/Json/Tokens.antt =====
-- The tokens of a canonical text: a quoted string is skipped whole, and a number is taken whole.
use marimo_export.Prelude.{
  ℕ, Bool, true, false, not, ◌&&◌, ◌||◌, [], ◌∷◌, ◌++◌, Option, some, length, ltb, ◌==◌, ◌≡◌, refl,
  arith, ok, ◌≤◌,
}
use marimo_export.Format.Texts.{Text}
use marimo_export.Json.Characters.{plain, skip_from, is_hex, is_escape, is_digit, continues_number}

abbrev pub is_plain : ℕ → Bool
is_plain c = not (ltb c 32) && (not (c == b'"') && not (c == 92))

-- What `json.dumps` writes after the opening quote: characters, escapes and the closing quote.
pub data Quoted : Text → Type 0 where
  closed : Quoted (b'"' ∷ [])
  literally : (c : ℕ) (rest : Text) → is_plain c ≡ true → Quoted rest → Quoted (c ∷ rest)
  escape : (c : ℕ) (rest : Text) → is_escape c ≡ true → Quoted rest → Quoted (92 ∷ c ∷ rest)
  unicode :
      (a b c d : ℕ) (rest : Text)
      → is_hex a ≡ true
      → is_hex b ≡ true
      → is_hex c ≡ true
      → is_hex d ≡ true
      → Quoted rest
      → Quoted (92 ∷ b'u' ∷ a ∷ b ∷ c ∷ d ∷ rest)

pub skip-Quoted : (q rest : Text) → Quoted q → skip_from (q ++ rest) plain ≡ ok rest
unfolding skip_from
skip-Quoted q rest closed = refl
skip-Quoted q rest (literally c more h w) =
    let e : (c == 92) ≡ false = ground (arith, h) in
    let f : ltb c 32 ≡ false = ground (arith, h) in
    let g : (c == b'"') ≡ false = ground (arith, h) in rw (e, f, g) (skip-Quoted more rest w)
skip-Quoted q rest (escape c more h w) =
    let e : (c == b'u') ≡ false = ground (arith, h) in rw (e, h) (skip-Quoted more rest w)
skip-Quoted q rest (unicode a b c d more h i j k w) = rw (h, i, j, k) (skip-Quoted more rest w)

abbrev pub starts_number : ℕ → Bool
starts_number c = (c == b'-') || is_digit c

-- The match of a number takes the text that is written for it, and no more.
pub record IsNumeral (match_number : Text → Option (ℕ × Text)) (digits : Text) : Type 0 where
  pub first : ℕ
  pub more : Text
  pub splits : digits ≡ first ∷ more
  pub starts : starts_number first ≡ true
  pub matched :
      (rest : Text)
      → continues_number rest ≡ false
      → match_number (digits ++ rest) ≡ some (length digits, rest)

-- A number's text that the scan takes.
pub record IsScannable (match_number : Text → Option (ℕ × Text)) (digits : Text) : Type 0 where
  pub numeral : IsNumeral match_number digits
  pub short : length digits ≤ 1024
