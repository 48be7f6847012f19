-- ===== src/Format.antt =====
-- `_format.py` and the text functions that it is written over. A text is the list of its code points.
pub mod Names
pub mod Texts
use Prim.Native.Char.{code}
use marimo_export.Prelude.{ℕ, String, Bool, ◌&&◌, ◌||◌, List, [], ◌∷◌, length, all, leb, ◌==◌}

-- The code points of a text.
abbrev pub codes : String → List ℕ
codes String.[] = []
codes (String.◌∷◌ c s) = code c ∷ codes s

-- `[0-9a-f]`
unfoldable pub is_lower_hex : ℕ → Bool
is_lower_hex c = (leb b'0' c && leb c b'9') || (leb b'a' c && leb c b'f')

-- `SHA256.fullmatch(text) is not None`
unfoldable pub is_sha256 : List ℕ → Bool
unfolding is_lower_hex
is_sha256 text = length text == 64 && all is_lower_hex text
