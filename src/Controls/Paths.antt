-- ===== src/Controls/Paths.antt =====
-- The relations that the two walks over the dependencies are measured by.
use marimo_export.Prelude.{
  ℕ, suc, true, false, List, [], ◌∷◌, length, ◌≡◌, refl, arith, ok, bytes_eq, if◌then◌else◌,
  Bool-cases, inl, inr, ◌≤◌, ◌+◌, ap,
}
use mathlib.Core.Path.{subst}
use marimo_export.Format.Texts.{Text, is_in, is_subset, bytes_eq_lem, bytes_eq_self}
use marimo_export.Controls.{Edges, names, deps_of}

pub data Leads (edges : Edges) (x : Text) : Text → Type 0 where
  edge :
      {y : Text} (deps : List Text)
      → deps_of edges x ≡ ok deps
      → is_in y deps ≡ true
      → Leads edges x y
  further :
      {y z : Text} (deps : List Text)
      → Leads edges x y
      → deps_of edges y ≡ ok deps
      → is_in z deps ≡ true
      → Leads edges x z

pub data Reached (edges : Edges) (selected : List Text) : Text → Type 0 where
  chosen : {x : Text} → is_in x selected ≡ true → Reached edges selected x
  onward :
      {y z : Text} (deps : List Text)
      → Reached edges selected y
      → deps_of edges y ≡ ok deps
      → is_in z deps ≡ true
      → Reached edges selected z

-- Every dependency is a name, as `& set(by_name)` makes it.
abbrev pub IsClosed : Edges → Type 0
IsClosed edges =
    (x : Text) (deps : List Text) → deps_of edges x ≡ ok deps → is_subset deps (names edges) ≡ true

-- A name that is in the dict has dependencies.
pub deps_of-name :
    (edges : Edges) (x : Text)
    → is_in x (names edges) ≡ true
    → (deps : List Text) × (deps_of edges x ≡ ok deps)
unfolding deps_of
deps_of-name [] x h = absurd (ground arith)
deps_of-name ((key, deps) ∷ rest) x h = elim (Bool-cases (bytes_eq x key)) [
  | inl same ↦ (deps, rw same refl)
  | inr other ↦ let (d, e) = deps_of-name rest x (ground (arith, other, h)) in (d, rw other e)
]

pub length-names : (edges : Edges) → length (names edges) ≡ length edges
length-names [] = refl
length-names ((key, deps) ∷ rest) = ap suc (length-names rest)

-- How many of the names are not in `xs`.
unfoldable pub left : List Text → List Text → ℕ
left [] xs = 0
left (k ∷ ks) xs = (if is_in k xs then 0 else 1) + left ks xs

pub left-le : (ks xs : List Text) → left ks xs ≤ length ks
unfolding left
left-le [] xs = ground arith
left-le (k ∷ ks) xs = ground (arith, left-le ks xs)

left_mono : (ks xs : List Text) (x : Text) → left ks (x ∷ xs) ≤ left ks xs
unfolding left
left_mono [] xs x = ground arith
left_mono (k ∷ ks) xs x = ground (arith, left_mono ks xs x)

-- A name that was not in `xs` makes one less.
pub left-cons :
    (ks xs : List Text) (x : Text)
    → is_in x ks ≡ true
    → is_in x xs ≡ false
    → left ks (x ∷ xs) + 1 ≤ left ks xs
unfolding left
left-cons [] xs x h m = absurd (ground arith)
left-cons (k ∷ ks) xs x h m = elim (Bool-cases (bytes_eq x k)) [
  | inl same ↦
      let e = (bytes_eq_lem x k).0 same in
      let out : is_in k xs ≡ false = subst (λ z. is_in z xs ≡ false) e m in
      let back : bytes_eq k x ≡ true = subst (λ z. bytes_eq z x ≡ true) e (bytes_eq_self x) in
      ground (arith, out, back, left_mono ks xs x)
  | inr other ↦ ground (arith, left-cons ks xs x (ground (arith, other, h)) m)
]
