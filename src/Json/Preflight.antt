-- ===== src/Json/Preflight.antt =====
-- `_preflight_json` of `_json.py`: the scan of a text before it is decoded. The text that is left
-- stands for the index. Python's `scanstring` and the match of a number are parameters: each
-- returns what it has read and what is left after it.
use marimo_export.Prelude.{
  ℕ, zero, suc, Bool, true, false, not, ◌||◌, List, [], ◌∷◌, Option, none, some, length, ltb, ◌==◌,
  if◌then◌else◌, Result, ok, err, ◌>>=◌, ◌>>◌, raise_if, ◌+◌,
}
use marimo_export.Format.Texts.{Text, is_in}
use marimo_export.Json.Values.{
  JsonError, too_deep, too_many, duplicate_key, invalid_syntax, long_number, out_of_fuel, max_depth,
}
use marimo_export.Json.Characters.{plain, skip_from, is_digit, continues_number}

pub data Kind : Type 0 where
  in_object in_array : Kind

pub data Place : Type 0 where
  key_or_end key colon value value_or_end after_value : Place

pub data Root : Type 0 where
  root_value active done : Root

pub record Container : Type 0 where
  pub kind : Kind
  pub place : Place
  pub keys : List Text

pub record Scan : Type 0 where
  pub left : Text
  pub count : ℕ
  pub containers : List Container
  pub root : Root

abbrev pub Step : Type 0
Step = Result JsonError Scan

abbrev pub max_number_chars : ℕ
max_number_chars = 1024

abbrev pub count_value : ℕ → Scan → Step
count_value max_values s =
    raise_if (ltb max_values (s.count + 1)) too_many
    >> (raise_if (ltb max_depth (length s.containers)) too_deep
        >> ok (record s { count = s.count + 1 }))

abbrev pub allows_value : Kind → Place → Bool
allows_value kind value = true
allows_value in_array value_or_end = true
allows_value _ _ = false

abbrev pub is_root_value : Root → Bool
is_root_value root_value = true
is_root_value _ = false

abbrev pub replace_state : Place → Container → Container
replace_state place c = record c { place = place }

abbrev pub begin_at : List Container → Scan → Step
begin_at [] s = if is_root_value s.root then ok (record s { root = active }) else err invalid_syntax
begin_at (c ∷ cs) s = if allows_value c.kind c.place then ok s else err invalid_syntax

abbrev pub begin_value : Scan → Step
begin_value s = begin_at s.containers s

abbrev pub complete_at : List Container → Scan → Step
complete_at [] s = ok (record s { root = done })
complete_at (c ∷ cs) s =
    if allows_value c.kind c.place
    then ok (record s { containers = replace_state after_value c ∷ cs })
    else err invalid_syntax

abbrev pub complete_value : Scan → Step
complete_value s = complete_at s.containers s

abbrev pub moved_to : Text → Scan → Scan
moved_to rest s = record s { left = rest }

abbrev pub is_key_place : List Container → Bool
is_key_place [] = false
is_key_place (c ∷ cs) = elim c.kind [
  | in_array ↦ false
  | in_object ↦ elim c.place [ key_or_end ↦ true | key ↦ true | _ ↦ false ]
]

abbrev pub closes : Kind → Place → Bool
closes in_object key_or_end = true
closes in_object after_value = true
closes in_array value_or_end = true
closes in_array after_value = true
closes _ _ = false

abbrev pub closing : Kind → ℕ
closing in_object = b'}'
closing in_array = b']'

abbrev pub close_at : ℕ → Text → List Container → Scan → Step
close_at c rest [] s = err invalid_syntax
close_at c rest (top ∷ below) s =
    raise_if (not (c == closing top.kind) || not (closes top.kind top.place)) invalid_syntax
    >> complete_at below (record s { left = rest; containers = below })

abbrev pub colon_at : Text → List Container → Scan → Step
colon_at rest [] s = err invalid_syntax
colon_at rest (top ∷ below) s = elim top.kind [
  | in_array ↦ err invalid_syntax
  | in_object ↦ elim top.place [
    | colon ↦ ok (record s { left = rest; containers = replace_state value top ∷ below })
    | _ ↦ err invalid_syntax
  ]
]

abbrev pub after_comma : Kind → Place
after_comma in_object = key
after_comma in_array = value

abbrev pub comma_at : Text → List Container → Scan → Step
comma_at rest [] s = err invalid_syntax
comma_at rest (top ∷ below) s = elim top.place [
  | after_value ↦
      ok (record s { left = rest; containers = replace_state (after_comma top.kind) top ∷ below })
  | _ ↦ err invalid_syntax
]

abbrev pub push_container : Kind → Place → Text → Scan → Step
push_container kind place rest s = ok (record s {
  left = rest;
  containers = record { kind = kind; place = place; keys = [] } ∷ s.containers;
})

abbrev pub add_key : Text → Text → List Container → Scan → Step
add_key found rest [] s = err invalid_syntax
add_key found rest (top ∷ below) s =
    raise_if (is_in found top.keys) (duplicate_key found)
    >> ok (record s {
      left = rest;
      containers = (record top { place = colon; keys = found ∷ top.keys }) ∷ below;
    })

abbrev pub take_key : Option (Text × Text) → Scan → Step
take_key none s = err invalid_syntax
take_key (some (found, rest)) s = add_key found rest s.containers s

abbrev pub take_number : Option (ℕ × Text) → Scan → Step
take_number none s = err invalid_syntax
take_number (some (n, rest)) s =
    raise_if (continues_number rest) invalid_syntax
    >> (raise_if (ltb max_number_chars n) long_number
        >> (begin_value s >>= λ begun. complete_value (moved_to rest begun)))

abbrev pub drop_prefix : Text → Text → Option Text
drop_prefix [] xs = some xs
drop_prefix (p ∷ ps) [] = none
drop_prefix (p ∷ ps) (x ∷ xs) = if p == x then drop_prefix ps xs else none

abbrev pub or_else : Option Text → Option Text → Option Text
or_else none more = more
or_else (some rest) more = some rest

-- What is left after the first of the literals that the text starts with.
abbrev pub literal_rest : List Text → Text → Option Text
literal_rest [] xs = none
literal_rest (l ∷ ls) xs = or_else (drop_prefix l xs) (literal_rest ls xs)

abbrev pub literals : List Text
literals =
    (b't' ∷ b'r' ∷ b'u' ∷ b'e' ∷ [])
    ∷ (b'f' ∷ b'a' ∷ b'l' ∷ b's' ∷ b'e' ∷ [])
    ∷ (b'n' ∷ b'u' ∷ b'l' ∷ b'l' ∷ [])
    ∷ []

abbrev pub take_literal : ℕ → Option Text → Scan → Step
take_literal max_values none s = err invalid_syntax
take_literal max_values (some rest) s = count_value max_values s >>= λ counted.
    begin_value counted >>= λ begun. complete_value (moved_to rest begun)

abbrev pub is_space : ℕ → Bool
is_space c = (c == b' ') || (c == b'\t') || (c == b'\r') || (c == b'\n')

abbrev pub start : Text → Scan
start input = record { left = input; count = 0; containers = []; root = root_value }

module _ (scan_string : Text → Option (Text × Text)) (match_number : Text → Option (ℕ × Text))
    (max_values : ℕ) where
  abbrev pub on_quote : Text → Scan → Step
  on_quote rest s = count_value max_values s >>= λ counted.
      if is_key_place counted.containers
      then take_key (scan_string rest) counted
      else (begin_value counted >>= λ begun.
          skip_from rest plain >>= λ after. complete_value (moved_to after begun))

  abbrev pub on_open : Kind → Place → Text → Scan → Step
  on_open kind place rest s = count_value max_values s >>= λ counted.
      begin_value counted >>= λ begun. push_container kind place rest begun

  -- One round of the loop, at the character `c`.
  unfoldable pub round : ℕ → Text → Scan → Step
  unfolding skip_from
  round c rest s =
      if is_space c
      then ok (moved_to rest s)
      else if c == b'"'
      then on_quote rest s
      else if c == b'{'
      then on_open in_object key_or_end rest s
      else if c == b'['
      then on_open in_array value_or_end rest s
      else if (c == b']') || (c == b'}')
      then close_at c rest s.containers s
      else if c == b':'
      then colon_at rest s.containers s
      else if c == b','
      then comma_at rest s.containers s
      else if (c == b'-') || is_digit c
      then (count_value max_values s >>= λ counted. take_number (match_number (c ∷ rest)) counted)
      else take_literal max_values (literal_rest literals (c ∷ rest)) s

  unfoldable pub scan_loop : ℕ → Scan → Step
  unfolding round
  scan_loop zero s = err out_of_fuel
  scan_loop (suc fuel) s = elim s.left [
    | [] ↦ ok s
    | c ∷ rest ↦ round c rest s >>= λ after. scan_loop fuel after
  ]

  unfoldable pub preflight_json : Text → Step
  unfolding scan_loop
  preflight_json input = scan_loop (suc (length input)) (start input)
