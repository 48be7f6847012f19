-- ===== src/Format/Texts.antt =====
-- Texts as the lists of their code points, and the sets of texts that the program keeps: a `set` is
-- a list with no element twice, read by membership only.
use marimo_export.Prelude.{
  ℕ, Bool, true, false, ◌&&◌, ◌||◌, not, List, [], ◌∷◌, ◌≡◌, ◌↔◌, refl, sym, ap, arith, any, all,
  bytes_eq, ltb, ◌==◌, ==_iff, if◌then◌else◌, Bool-cases, inl, inr,
}
use mathlib.Core.Path.{subst}

abbrev pub Text : Type 0
Text = List ℕ

-- `x in xs`
abbrev pub is_in : Text → List Text → Bool
is_in x xs = any (bytes_eq x) xs

-- `a <= b` and `a < b` on sets, and `a == b`
abbrev pub is_subset : List Text → List Text → Bool
is_subset a b = all (λ x. is_in x b) a

abbrev pub is_strict : List Text → List Text → Bool
is_strict a b = is_subset a b && not (is_subset b a)

abbrev pub is_same : List Text → List Text → Bool
is_same a b = is_subset a b && is_subset b a

-- `bool(a & b)`
abbrev pub overlaps : List Text → List Text → Bool
overlaps a b = any (λ x. is_in x b) a

-- `a & b`
unfoldable pub meet : List Text → List Text → List Text
meet [] b = []
meet (x ∷ a) b = let rest = meet a b in if is_in x b then x ∷ rest else rest

-- `a - b`: an element that is taken is not taken again.
unfoldable pub minus : List Text → List Text → List Text
minus [] b = []
minus (x ∷ a) b =
    let kept = minus a (x ∷ b) in let skipped = minus a b in if is_in x b then skipped else x ∷ kept

-- `a < b` on texts
unfoldable pub text_lt : Text → Text → Bool
text_lt [] [] = false
text_lt [] (y ∷ ys) = true
text_lt (x ∷ xs) [] = false
text_lt (x ∷ xs) (y ∷ ys) = ltb x y || ((x == y) && text_lt xs ys)

-- `min(...)`, with the first element given
unfoldable pub least : Text → List Text → Text
unfolding text_lt
least x [] = x
least x (y ∷ ys) = least (if text_lt y x then y else x) ys

unfoldable pub insert_text : Text → List Text → List Text
unfolding text_lt
insert_text x [] = x ∷ []
insert_text x (y ∷ ys) =
    let rest = insert_text x ys in
    if bytes_eq x y then y ∷ ys else if text_lt x y then x ∷ (y ∷ ys) else y ∷ rest

-- `sorted({...})`
unfoldable pub sorted_set : List Text → List Text
unfolding insert_text
sorted_set [] = []
sorted_set (x ∷ xs) = insert_text x (sorted_set xs)

pub bytes_eq_lem : (x y : Text) → (bytes_eq x y ≡ true) ↔ (x ≡ y)
bytes_eq_lem [] [] = ground arith
bytes_eq_lem [] (y ∷ ys) = ground arith
bytes_eq_lem (x ∷ xs) [] = ground arith
bytes_eq_lem (x ∷ xs) (y ∷ ys) = ground (arith, bytes_eq_lem xs ys, ==_iff x y)

pub bytes_eq_self : (x : Text) → bytes_eq x x ≡ true
bytes_eq_self x = (bytes_eq_lem x x).1 refl

pub is_in-minus :
    (x : Text) (a b : List Text) → is_in x (minus a b) ≡ (is_in x a && not (is_in x b))
unfolding minus
is_in-minus x [] b = refl
is_in-minus x (y ∷ a) b = elim (Bool-cases (bytes_eq x y)) [
  | inl same ↦ elim (Bool-cases (is_in y b)) [
    | inl inside ↦
        let e = (bytes_eq_lem x y).0 same in
        let there : is_in x b ≡ true = subst (λ z. is_in z b ≡ true) (sym e) inside in
        ground (arith, inside, there, is_in-minus x a b)
    | inr out ↦
        let e = (bytes_eq_lem x y).0 same in
        let gone : is_in x b ≡ false = subst (λ z. is_in z b ≡ false) (sym e) out in
        ground (arith, out, gone, same)
  ]
  | inr other ↦ ground (arith, other, is_in-minus x a b, is_in-minus x a (y ∷ b))
]

pub is_in-meet : (x : Text) (a b : List Text) → is_in x (meet a b) ≡ (is_in x a && is_in x b)
unfolding meet
is_in-meet x [] b = refl
is_in-meet x (y ∷ a) b = elim (Bool-cases (bytes_eq x y)) [
  | inl same ↦
      let e = (bytes_eq_lem x y).0 same in
      let there : is_in x b ≡ is_in y b = ap (λ z. is_in z b) e in
      ground (arith, same, there, is_in-meet x a b)
  | inr other ↦ ground (arith, other, is_in-meet x a b)
]

is_in-insert_text :
    (x y : Text) (ys : List Text) → is_in x (insert_text y ys) ≡ (bytes_eq x y || is_in x ys)
unfolding insert_text
is_in-insert_text x y [] = refl
is_in-insert_text x y (z ∷ ys) = elim (Bool-cases (bytes_eq y z)) [
  | inl same ↦
      let e = (bytes_eq_lem y z).0 same in
      let alike : bytes_eq x y ≡ bytes_eq x z = ap (bytes_eq x) e in ground (arith, same, alike)
  | inr other ↦ ground (arith, other, is_in-insert_text x y ys)
]

pub is_in-sorted_set : (x : Text) (xs : List Text) → is_in x (sorted_set xs) ≡ is_in x xs
unfolding sorted_set
is_in-sorted_set x [] = refl
is_in-sorted_set x (y ∷ ys) =
    ground (arith, is_in-insert_text x y (sorted_set ys), is_in-sorted_set x ys)

pub is_in-subset :
    (x : Text) (a b : List Text) → is_subset a b ≡ true → is_in x a ≡ true → is_in x b ≡ true
is_in-subset x [] b h m = absurd (ground arith)
is_in-subset x (y ∷ a) b h m = elim (Bool-cases (bytes_eq x y)) [
  | inl same ↦
      let e = (bytes_eq_lem x y).0 same in subst (λ z. is_in z b ≡ true) (sym e) (ground (arith, h))
  | inr other ↦ is_in-subset x a b (ground (arith, h)) (ground (arith, other, m))
]

pub subset-of_members :
    (a b : List Text) → ((x : Text) → is_in x a ≡ true → is_in x b ≡ true) → is_subset a b ≡ true
subset-of_members [] b h = refl
subset-of_members (y ∷ a) b h = ground (
  arith,
  h y (ground (arith, bytes_eq_self y)),
  subset-of_members a b (λ x m. h x (ground (arith, m))),
)

pub subset_trans :
    (a b c : List Text) → is_subset a b ≡ true → is_subset b c ≡ true → is_subset a c ≡ true
subset_trans a b c h k =
    subset-of_members a c (λ x m. is_in-subset x b c k (is_in-subset x a b h m))

pub subset_self : (a : List Text) → is_subset a a ≡ true
subset_self a = subset-of_members a a (λ x m. m)
