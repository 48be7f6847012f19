-- ===== src/Json/Characters.antt =====
-- The characters of a string and of a number, as `_preflight_json` and `_skip_json_string` of
-- `_json.py` read them.
use marimo_export.Prelude.{
  ℕ, zero, suc, Bool, false, ◌&&◌, ◌||◌, [], ◌∷◌, leb, ltb, ◌==◌, if◌then◌else◌, Result, ok, err,
}
use marimo_export.Format.Texts.{Text}
use marimo_export.Json.Values.{JsonError, invalid_syntax}

abbrev pub is_hex : ℕ → Bool
is_hex c = (leb b'0' c && leb c b'9') || (leb b'a' c && leb c b'f') || (leb b'A' c && leb c b'F')

abbrev pub is_escape : ℕ → Bool
is_escape c =
    (c == b'"')
    || (c == 92)
    || (c == b'/')
    || (c == b'b')
    || (c == b'f')
    || (c == b'n')
    || (c == b'r')
    || (c == b't')

-- Where `_skip_json_string` stands: outside an escape, after its backslash, or before a number of
-- hexadecimal digits and one more.
pub data Mode : Type 0 where
  plain escaped : Mode
  hex : ℕ → Mode

pub data Next : Type 0 where
  go : Mode → Next
  stop fail : Next

abbrev pub after_hex : ℕ → Mode
after_hex zero = plain
after_hex (suc n) = hex n

abbrev pub next : Mode → ℕ → Next
next plain c =
    if c == 92 then go escaped else if ltb c 32 then fail else if c == b'"' then stop else go plain
next escaped c = if c == b'u' then go (hex 3) else if is_escape c then go plain else fail
next (hex n) c = if is_hex c then go (after_hex n) else fail

abbrev pub follow : (Mode → Result JsonError Text) → Text → Next → Result JsonError Text
follow skip rest (go mode) = skip mode
follow skip rest stop = ok rest
follow skip rest fail = err invalid_syntax

-- `_skip_json_string`, after the opening quote
unfoldable pub skip_from : Text → Mode → Result JsonError Text
skip_from [] mode = err invalid_syntax
skip_from (c ∷ rest) mode = follow (skip_from rest) rest (next mode c)

abbrev pub skip_json_string : Text → Result JsonError Text
unfolding skip_from
skip_json_string rest = skip_from rest plain

abbrev pub is_digit : ℕ → Bool
is_digit c = leb b'0' c && leb c b'9'

abbrev pub is_number_char : ℕ → Bool
is_number_char c =
    is_digit c || (c == b'+') || (c == b'-') || (c == b'.') || (c == b'e') || (c == b'E')

abbrev pub continues_number : Text → Bool
continues_number [] = false
continues_number (c ∷ rest) = is_number_char c
