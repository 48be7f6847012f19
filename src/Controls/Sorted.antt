-- ===== src/Controls/Sorted.antt =====
-- `sorted` of a set lists no text twice, so that a tuple that equals it does not either.
use marimo_export.Prelude.{
  true, false, List, [], ◌∷◌, ◌≡◌, refl, sym, arith, bytes_eq, Bool-cases, inl, inr,
}
use mathlib.Core.Path.{subst}
use marimo_export.Format.Texts.{Text, is_in, text_lt, insert_text, sorted_set, bytes_eq_lem}
use marimo_export.Controls.{texts_eq}
use marimo_export.Controls.Subsets.{IsDistinct}

text_lt_irrefl : (x : Text) → text_lt x x ≡ false
unfolding text_lt
text_lt_irrefl [] = refl
text_lt_irrefl (c ∷ x) = ground (arith, text_lt_irrefl x)

text_lt_trans : (x y z : Text) → text_lt x y ≡ true → text_lt y z ≡ true → text_lt x z ≡ true
unfolding text_lt
text_lt_trans [] [] z h k = absurd (ground arith)
text_lt_trans [] (d ∷ y) [] h k = absurd (ground arith)
text_lt_trans [] (d ∷ y) (e ∷ z) h k = refl
text_lt_trans (c ∷ x) [] z h k = absurd (ground arith)
text_lt_trans (c ∷ x) (d ∷ y) [] h k = absurd (ground arith)
text_lt_trans (c ∷ x) (d ∷ y) (e ∷ z) h k = ground (arith, text_lt_trans x y z, h, k)

text_lt_total : (x y : Text) → bytes_eq x y ≡ false → text_lt x y ≡ false → text_lt y x ≡ true
unfolding text_lt
text_lt_total [] [] h k = absurd (ground arith)
text_lt_total [] (d ∷ y) h k = absurd (ground arith)
text_lt_total (c ∷ x) [] h k = refl
text_lt_total (c ∷ x) (d ∷ y) h k = ground (arith, text_lt_total x y, h, k)

abbrev Above : Text → List Text → Type 0
Above x [] = Unit
Above x (y ∷ ys) = (text_lt x y ≡ true) × Above x ys

abbrev IsSorted : List Text → Type 0
IsSorted [] = Unit
IsSorted (x ∷ xs) = Above x xs × IsSorted xs

Above-trans : (x y : Text) (zs : List Text) → text_lt x y ≡ true → Above y zs → Above x zs
Above-trans x y [] h a = tt
Above-trans x y (z ∷ zs) h a = (text_lt_trans x y z h a.0, Above-trans x y zs h a.1)

Above-insert_text :
    (x y : Text) (ys : List Text) → text_lt x y ≡ true → Above x ys → Above x (insert_text y ys)
unfolding insert_text
Above-insert_text x y [] h a = (h, tt)
Above-insert_text x y (z ∷ ys) h a = elim (Bool-cases (bytes_eq y z)) [
  | inl same ↦ rw same a
  | inr other ↦ elim (Bool-cases (text_lt y z)) [
    | inl less ↦ rw (other, less) (h, a)
    | inr more ↦ rw (other, more) (a.0, Above-insert_text x y ys h a.1)
  ]
]

insert_text-IsSorted : (y : Text) (ys : List Text) → IsSorted ys → IsSorted (insert_text y ys)
unfolding insert_text
insert_text-IsSorted y [] s = (tt, tt)
insert_text-IsSorted y (z ∷ ys) s = elim (Bool-cases (bytes_eq y z)) [
  | inl same ↦ rw same s
  | inr other ↦ elim (Bool-cases (text_lt y z)) [
    | inl less ↦ rw (other, less) ((less, Above-trans y z ys less s.0), s)
    | inr more ↦
        rw (other, more)
          (
            Above-insert_text z y ys (text_lt_total y z other more) s.0,
            insert_text-IsSorted y ys s.1,
          )
  ]
]

sorted_set-IsSorted : (xs : List Text) → IsSorted (sorted_set xs)
unfolding sorted_set
sorted_set-IsSorted [] = tt
sorted_set-IsSorted (x ∷ xs) = insert_text-IsSorted x (sorted_set xs) (sorted_set-IsSorted xs)

Above-out : (x : Text) (ys : List Text) → Above x ys → is_in x ys ≡ false
Above-out x [] a = refl
Above-out x (y ∷ ys) a = elim (Bool-cases (bytes_eq x y)) [
  | inl same ↦
      let e = (bytes_eq_lem x y).0 same in
      let loop : text_lt x x ≡ true = subst (λ z. text_lt x z ≡ true) (sym e) a.0 in
      absurd (ground (arith, loop, text_lt_irrefl x))
  | inr other ↦ ground (arith, other, Above-out x ys a.1)
]

IsSorted-IsDistinct : (xs : List Text) → IsSorted xs → IsDistinct xs
IsSorted-IsDistinct [] s = tt
IsSorted-IsDistinct (x ∷ xs) s = (Above-out x xs s.0, IsSorted-IsDistinct xs s.1)

texts_eq_lem : (xs ys : List Text) → texts_eq xs ys ≡ true → xs ≡ ys
texts_eq_lem [] [] h = refl
texts_eq_lem [] (y ∷ ys) h = absurd (ground arith)
texts_eq_lem (x ∷ xs) [] h = absurd (ground arith)
texts_eq_lem (x ∷ xs) (y ∷ ys) h =
    let heads = (bytes_eq_lem x y).0 (ground (arith, h)) in
    let tails = texts_eq_lem xs ys (ground (arith, h)) in cc

-- `ids == tuple(sorted(set(ids)))`
pub sorted-IsDistinct : (xs : List Text) → texts_eq xs (sorted_set xs) ≡ true → IsDistinct xs
sorted-IsDistinct xs h =
    subst (λ ys. IsDistinct ys) (sym (texts_eq_lem xs (sorted_set xs) h))
      (IsSorted-IsDistinct (sorted_set xs) (sorted_set-IsSorted xs))
