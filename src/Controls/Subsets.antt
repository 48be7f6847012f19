-- ===== src/Controls/Subsets.antt =====
-- Sets of texts compared: a strict subset is shorter, and equal sets agree in every test.
use marimo_export.Prelude.{
  true, false, List, [], ◌∷◌, length, ◌≡◌, refl, arith, bytes_eq, Bool-cases, inl, inr, ◌≤◌, ◌<◌,
  ◌+◌,
}
use mathlib.Core.Path.{subst}
use marimo_export.Format.Texts.{
  Text, is_in, is_subset, is_strict, is_same, overlaps, bytes_eq_lem, bytes_eq_self, is_in-subset,
  subset_self, subset_trans,
}
use marimo_export.Controls.Paths.{left, left-le, left-cons}

abbrev pub IsDistinct : List Text → Type 0
IsDistinct [] = Unit
IsDistinct (x ∷ xs) = (is_in x xs ≡ false) × IsDistinct xs

left-length :
    (ks xs : List Text)
    → IsDistinct xs
    → is_subset xs ks ≡ true
    → left ks xs + length xs ≤ length ks
left-length ks [] d h = omega (arith, left-le ks [])
left-length ks (x ∷ xs) d h =
    omega
      (arith, left-cons ks xs x (ground (arith, h)) d.0, left-length ks xs d.1 (ground (arith, h)))

left-missing : (ks xs : List Text) → is_subset ks xs ≡ false → 1 ≤ left ks xs
unfolding left
left-missing [] xs h = absurd (ground arith)
left-missing (k ∷ ks) xs h = ground (arith, left-missing ks xs)

pub length-strict : (a b : List Text) → IsDistinct a → is_strict a b ≡ true → length a < length b
length-strict a b d h =
    let inside : is_subset a b ≡ true = ground (arith, h) in
    let missing : is_subset b a ≡ false = ground (arith, h) in
    omega (arith, left-length b a d inside, left-missing b a missing)

find_overlap :
    (a b : List Text) → overlaps a b ≡ true → (x : Text) × (is_in x a ≡ true) × (is_in x b ≡ true)
find_overlap [] b h = absurd (ground arith)
find_overlap (y ∷ a) b h = elim (Bool-cases (is_in y b)) [
  | inl there ↦ (y, ground (arith, bytes_eq_self y), there)
  | inr other ↦
      let (x, m, k) = find_overlap a b (ground (arith, other, h)) in (x, ground (arith, m), k)
]

overlap_at :
    (x : Text) (a b : List Text) → is_in x a ≡ true → is_in x b ≡ true → overlaps a b ≡ true
overlap_at x [] b h k = absurd (ground arith)
overlap_at x (y ∷ a) b h k = elim (Bool-cases (bytes_eq x y)) [
  | inl same ↦
      let e = (bytes_eq_lem x y).0 same in
      let there : is_in y b ≡ true = subst (λ z. is_in z b ≡ true) e k in ground (arith, there)
  | inr other ↦ ground (arith, overlap_at x a b (ground (arith, other, h)) k)
]

pub overlaps-subset :
    (a b c d : List Text)
    → overlaps a b ≡ true
    → is_subset a c ≡ true
    → is_subset b d ≡ true
    → overlaps c d ≡ true
overlaps-subset a b c d h k l =
    let (x, m, n) = find_overlap a b h in
    overlap_at x c d (is_in-subset x a c k m) (is_in-subset x b d l n)

pub overlaps_comm : (a b : List Text) → overlaps a b ≡ true → overlaps b a ≡ true
overlaps_comm a b h = let (x, m, n) = find_overlap a b h in overlap_at x b a n m

-- What is strictly inside a set is strictly inside what contains that set.
pub strict-subset :
    (a b c : List Text) → is_subset a b ≡ true → is_strict b c ≡ true → is_strict a c ≡ true
strict-subset a b c h k =
    let inside : is_subset b c ≡ true = ground (arith, k) in
    let through = subset_trans a b c h inside in
    elim (Bool-cases (is_subset c a)) [
      | inl back ↦ let closed = subset_trans c a b back h in absurd (ground (arith, closed, k))
      | inr out ↦ ground (arith, out, through)
    ]

pub strict-same :
    (a b c : List Text) → is_strict a b ≡ true → is_same b c ≡ true → is_strict a c ≡ true
strict-same a b c h k =
    let up : is_subset a b ≡ true = ground (arith, h) in
    let over : is_subset b c ≡ true = ground (arith, k) in
    let through = subset_trans a b c up over in
    elim (Bool-cases (is_subset c a)) [
      | inl back ↦ let closed = subset_trans b c a over back in absurd (ground (arith, closed, h))
      | inr out ↦ ground (arith, out, through)
    ]

pub same_cong : (a b c : List Text) → is_same a b ≡ true → is_same a c ≡ is_same b c
same_cong a b c h =
    let ab : is_subset a b ≡ true = ground (arith, h) in
    let ba : is_subset b a ≡ true = ground (arith, h) in
    ground (
      arith,
      subset_trans a b c ab,
      subset_trans b a c ba,
      subset_trans c a b,
      subset_trans c b a,
      h,
    )

pub same_self : (a : List Text) → is_same a a ≡ true
same_self a = rw (subset_self a) refl
