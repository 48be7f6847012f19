-- ===== src/Json/Ending.antt =====
-- What the helpers of the scan leave of the text, and that they raise no end of the fuel.
use marimo_export.Prelude.{
  ℕ, Bool, true, false, not, ◌||◌, List, [], ◌∷◌, Option, none, some, length, ltb, ◌==◌, ◌≡◌, refl,
  arith, if◌then◌else◌, Result, ok, err, ◌>>=◌, ◌>>◌, raise_if, ◌≤◌, ◌+◌, ok-injective, Bool-cases,
  inl, inr,
}
use mathlib.Core.Path.{subst}
use marimo_export.Format.Texts.{Text, is_in}
use marimo_export.Json.Values.{JsonError, max_depth, invalid_syntax, out_of_fuel}
use marimo_export.Json.Characters.{
  Mode, Next, go, stop, fail, next, follow, skip_from, continues_number,
}
use marimo_export.Json.Preflight.{
  Kind, in_object, in_array, Place, key_or_end, key, colon, value, value_or_end, after_value,
  Container, Scan, Step, count_value, begin_at, begin_value, complete_at, complete_value, moved_to,
  close_at, colon_at, comma_at, take_key, add_key, take_number, closing, closes, replace_state,
  after_comma, is_root_value, allows_value, max_number_chars,
}

abbrev pub is_fuel : JsonError → Bool
is_fuel out_of_fuel = true
is_fuel _ = false

-- A result that has not run out of fuel.
abbrev pub Raises : {A : Type 0} → Result JsonError A → Type 0
Raises (ok a) = Unit
Raises (err e) = is_fuel e ≡ false

-- A state with no more left than `n` characters, or an error.
abbrev pub Takes : ℕ → Step → Type 0
Takes n (ok t) = length t.left ≤ n
Takes n (err e) = is_fuel e ≡ false

-- The end of the text, or an error.
abbrev pub Ended : Step → Type 0
Ended (ok t) = t.left ≡ []
Ended (err e) = is_fuel e ≡ false

pub bind-Takes :
    {A : Type 0} (n : ℕ) (r : Result JsonError A) (then_do : A → Step)
    → Raises r
    → ((a : A) → r ≡ ok a → Takes n (then_do a))
    → Takes n (r >>= then_do)
bind-Takes n (ok a) then_do h k = k a refl
bind-Takes n (err e) then_do h k = h

raise-Takes :
    (n : ℕ) (b : Bool) (e : JsonError) (r : Step)
    → is_fuel e ≡ false
    → Takes n r
    → Takes n (raise_if b e >> r)
raise-Takes n true e r h k = h
raise-Takes n false e r h k = k

pub if-Takes :
    (n : ℕ) (b : Bool) (x y : Step) → Takes n x → Takes n y → Takes n (if b then x else y)
if-Takes n true x y h k = h
if-Takes n false x y h k = k

pub Takes-Raises : (n : ℕ) (r : Step) → Takes n r → Raises r
Takes-Raises n (ok t) h = tt
Takes-Raises n (err e) h = h

pub count-Takes : (m : ℕ) (s : Scan) → Takes (length s.left) (count_value m s)
count-Takes m s = elim (Bool-cases (ltb m (s.count + 1))) [
  | inl many ↦ rw many refl
  | inr room ↦ elim (Bool-cases (ltb max_depth (length s.containers))) [
    | inl deep ↦ rw (room, deep) refl
    | inr fine ↦ rw (room, fine) (omega arith)
  ]
]

pub begin-Takes : (cs : List Container) (s : Scan) → Takes (length s.left) (begin_at cs s)
begin-Takes [] s = elim (Bool-cases (is_root_value s.root)) [
  | inl fine ↦ rw fine (omega arith)
  | inr bad ↦ rw bad refl
]
begin-Takes (c ∷ cs) s = elim (Bool-cases (allows_value c.kind c.place)) [
  | inl fine ↦ rw fine (omega arith)
  | inr bad ↦ rw bad refl
]

pub complete-Takes : (cs : List Container) (s : Scan) → Takes (length s.left) (complete_at cs s)
complete-Takes [] s = omega arith
complete-Takes (c ∷ cs) s = elim (Bool-cases (allows_value c.kind c.place)) [
  | inl fine ↦ rw fine (omega arith)
  | inr bad ↦ rw bad refl
]

follow-Raises :
    (q : Text) (n : Next)
    → ((mode : Mode) → Raises (skip_from q mode))
    → Raises (follow (skip_from q) q n)
follow-Raises q (go mode) h = h mode
follow-Raises q stop h = tt
follow-Raises q fail h = refl

pub skip-Raises : (q : Text) (mode : Mode) → Raises (skip_from q mode)
unfolding skip_from
skip-Raises [] mode = refl
skip-Raises (c ∷ q) mode = follow-Raises q (next mode c) (skip-Raises q)

follow-length :
    (q r : Text) (n : Next)
    → ((mode : Mode) (t : Text) → skip_from q mode ≡ ok t → length t ≤ length q)
    → follow (skip_from q) q n ≡ ok r
    → length r ≤ length q
follow-length q r (go mode) h e = h mode r e
follow-length q r stop h e =
    let same : q ≡ r = ok-injective e in subst (λ z. length z ≤ length q) same (omega arith)
follow-length q r fail h e = absurd (ground arith)

pub skip-length :
    (q : Text) (mode : Mode) (r : Text) → skip_from q mode ≡ ok r → length r ≤ length q
unfolding skip_from
skip-length [] mode r h = absurd (ground arith)
skip-length (c ∷ q) mode r h = omega (arith, follow-length q r (next mode c) (skip-length q) h)

pub Takes-le : (n k : ℕ) (r : Step) → n ≤ k → Takes n r → Takes k r
Takes-le n k (ok t) h w = omega (arith, h, w)
Takes-le n k (err e) h w = w

-- A value that begins and is completed with `rest` left.
pub value-Takes :
    (rest : Text) (s : Scan)
    → Takes (length rest) (begin_value s >>= λ begun. complete_value (moved_to rest begun))
value-Takes rest s =
    bind-Takes (length rest) (begin_value s) (λ begun. complete_value (moved_to rest begun))
      (Takes-Raises (length s.left) (begin_value s) (begin-Takes s.containers s))
      (λ begun e. complete-Takes begun.containers (moved_to rest begun))

pub close-Takes :
    (c : ℕ) (rest : Text) (cs : List Container) (s : Scan)
    → Takes (length rest) (close_at c rest cs s)
close-Takes c rest [] s = refl
close-Takes c rest (top ∷ below) s =
    raise-Takes (length rest) (not (c == closing top.kind) || not (closes top.kind top.place))
      invalid_syntax (complete_at below (record s { left = rest; containers = below })) refl
      (complete-Takes below (record s { left = rest; containers = below }))

pub colon-Takes :
    (rest : Text) (cs : List Container) (s : Scan) → Takes (length rest) (colon_at rest cs s)
colon-Takes rest [] s = refl
colon-Takes rest (top ∷ below) s = placed top.kind top.place
  where
    placed :
        (k : Kind) (p : Place)
        → Takes (length rest) (elim k [
          | in_array ↦ err invalid_syntax
          | in_object ↦ elim p [
            | colon ↦ ok (record s { left = rest; containers = replace_state value top ∷ below })
            | _ ↦ err invalid_syntax
          ]
        ])
    placed in_array p = refl
    placed in_object colon = omega arith
    placed in_object key_or_end = refl
    placed in_object key = refl
    placed in_object value = refl
    placed in_object value_or_end = refl
    placed in_object after_value = refl

pub comma-Takes :
    (rest : Text) (cs : List Container) (s : Scan) → Takes (length rest) (comma_at rest cs s)
comma-Takes rest [] s = refl
comma-Takes rest (top ∷ below) s = placed top.place
  where
    placed :
        (p : Place)
        → Takes (length rest) (elim p [
          | after_value ↦ ok (record s {
            left = rest;
            containers = replace_state (after_comma top.kind) top ∷ below;
          })
          | _ ↦ err invalid_syntax
        ])
    placed after_value = omega arith
    placed key_or_end = refl
    placed key = refl
    placed colon = refl
    placed value = refl
    placed value_or_end = refl

add_key-Takes :
    (found rest : Text) (cs : List Container) (s : Scan)
    → Takes (length rest) (add_key found rest cs s)
add_key-Takes found rest [] s = refl
add_key-Takes found rest (top ∷ below) s = elim (Bool-cases (is_in found top.keys)) [
  | inl again ↦ rw again refl
  | inr new ↦ rw new (omega arith)
]

pub take_key-Takes :
    (n : ℕ) (o : Option (Text × Text)) (s : Scan)
    → ((t r : Text) → o ≡ some (t, r) → length r ≤ n)
    → Takes n (take_key o s)
take_key-Takes n none s h = refl
take_key-Takes n (some (t, r)) s h =
    Takes-le (length r) n (add_key t r s.containers s) (h t r refl)
      (add_key-Takes t r s.containers s)

pub take_number-Takes :
    (n : ℕ) (o : Option (ℕ × Text)) (s : Scan)
    → ((k : ℕ) (r : Text) → o ≡ some (k, r) → length r ≤ n)
    → Takes n (take_number o s)
take_number-Takes n none s h = refl
take_number-Takes n (some (k, r)) s h = elim (Bool-cases (continues_number r)) [
  | inl more ↦ rw more refl
  | inr whole ↦ elim (Bool-cases (ltb max_number_chars k)) [
    | inl long ↦ rw (whole, long) refl
    | inr short ↦
        rw (whole, short)
          (Takes-le (length r) n (begin_value s >>= λ begun. complete_value (moved_to r begun))
            (h k r refl) (value-Takes r s))
  ]
]
