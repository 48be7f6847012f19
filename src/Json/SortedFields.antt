-- ===== src/Json/SortedFields.antt =====
-- Sorting the fields of a dict changes neither their count nor their depth, nor their keys.
use marimo_export.Prelude.{
  ℕ, suc, Bool, true, not, ◌&&◌, ◌||◌, List, ◌∷◌, Option, ◌≡◌, refl, arith, Bool-cases, inl, inr,
  bytes_eq,
}
use mathlib.Core.Path.{subst, ◌∙◌, sym, ap}
use marimo_export.Format.Texts.{Text, is_in, text_lt, bytes_eq_lem}
use marimo_export.Json.Values.{Value, Fields, no_fields, field}
use marimo_export.Json.Measures.{size, size_fields, depth, depth_fields, larger}
use marimo_export.Json.Canonical.{key_text, insert_field, sort_fields}
use marimo_export.Json.Spelled.{new_keys, is_distinct, are_distinct_fields}

-- A measure of fields that the order of two of them does not change.
module _ (A : Type 0) (measure : Fields → A)
    (swaps : (k j : Option Text) (x y : Value) (fs gs : Fields)
      → measure gs ≡ measure (field k x fs)
      → measure (field j y gs) ≡ measure (field k x (field j y fs)))
    (congruent : (k : Option Text) (x : Value) (fs gs : Fields)
      → measure gs ≡ measure fs
      → measure (field k x gs) ≡ measure (field k x fs)) where
  insert_lem :
      (k : Option Text) (x : Value) (fs : Fields)
      → measure (insert_field k x fs) ≡ measure (field k x fs)
  unfolding insert_field
  insert_lem k x no_fields = refl
  insert_lem k x (field j y fs) = elim (Bool-cases (text_lt (key_text j) (key_text k))) [
    | inl later ↦ rw later (swaps k j x y fs (insert_field k x fs) (insert_lem k x fs))
    | inr first ↦ rw first refl
  ]

  pub sort_lem : (fs : Fields) → measure (sort_fields fs) ≡ measure fs
  unfolding sort_fields
  sort_lem no_fields = refl
  sort_lem (field k x fs) =
      insert_lem k x (sort_fields fs) ∙ congruent k x fs (sort_fields fs) (sort_lem fs)

pub size-sort : (fs : Fields) → size_fields (sort_fields fs) ≡ size_fields fs
unfolding size
size-sort fs =
    sort_lem ℕ size_fields (λ k j x y fs gs h. omega (arith, h)) (λ k x fs gs h. omega (arith, h))
      fs

larger_swap : (a b c : ℕ) → larger a (larger b c) ≡ larger b (larger a c)
larger_swap a b c = ground arith

pub depth-sort : (fs : Fields) → depth_fields (sort_fields fs) ≡ depth_fields fs
unfolding depth
depth-sort fs =
    sort_lem ℕ depth_fields
      (λ k j x y fs gs h.
        ap (larger (suc (depth y))) h
        ∙ larger_swap (suc (depth y)) (suc (depth x)) (depth_fields fs))
      (λ k x fs gs h. ap (larger (suc (depth x))) h) fs

and_swap : (a b c : Bool) → (a && (b && c)) ≡ (b && (a && c))
and_swap a b c = ground arith

pub distinct-sort : (fs : Fields) → are_distinct_fields (sort_fields fs) ≡ are_distinct_fields fs
unfolding is_distinct
distinct-sort fs =
    sort_lem Bool are_distinct_fields
      (λ k j x y fs gs h.
        ap (◌&&◌ (is_distinct y)) h
        ∙ and_swap (is_distinct y) (is_distinct x) (are_distinct_fields fs))
      (λ k x fs gs h. ap (◌&&◌ (is_distinct x)) h) fs

-- What `new_keys` says of all sets of keys seen before.
new_same :
    (fs : Fields) (s t : List Text)
    → ((z : Text) → is_in z s ≡ is_in z t)
    → new_keys fs s ≡ new_keys fs t
new_same no_fields s t h = refl
new_same (field k x fs) s t h =
    let rest = new_same fs (key_text k ∷ s) (key_text k ∷ t) (λ z. ground (arith, h z)) in
    ground (arith, rest, h (key_text k))

new_swap :
    (a b c d : Bool) (e f : Bool)
    → e ≡ f
    → (not a && (not (c || b) && e)) ≡ (not b && (not (c || a) && f))
new_swap a b c d e f h = ground arith

bytes_eq_comm : (x y : Text) → bytes_eq x y ≡ bytes_eq y x
bytes_eq_comm x y = elim (Bool-cases (bytes_eq x y)) [
  | inl same ↦ let e = (bytes_eq_lem x y).0 same in subst (λ z. bytes_eq x z ≡ bytes_eq z x) e refl
  | inr unlike ↦ elim (Bool-cases (bytes_eq y x)) [
    | inr apart ↦ unlike ∙ sym apart
    | inl same ↦
        let e = (bytes_eq_lem y x).0 same in subst (λ z. bytes_eq z y ≡ bytes_eq y z) e refl
  ]
]

new-insert :
    (k : Option Text) (x : Value) (fs : Fields) (s : List Text)
    → new_keys (insert_field k x fs) s ≡ new_keys (field k x fs) s
unfolding insert_field
new-insert k x no_fields s = refl
new-insert k x (field j y fs) s = elim (Bool-cases (text_lt (key_text j) (key_text k))) [
  | inr first ↦ rw first refl
  | inl later ↦
      let a = key_text j in
      let b = key_text k in
      let inner = new-insert k x fs (a ∷ s) in
      let same = new_same fs (b ∷ (a ∷ s)) (a ∷ (b ∷ s)) (λ z. ground arith) in
      rw (later, inner, bytes_eq_comm b a)
        (new_swap (is_in a s) (is_in b s) (bytes_eq a b) true (new_keys fs (b ∷ (a ∷ s)))
          (new_keys fs (a ∷ (b ∷ s))) same)
]

new_cons :
    (k : Option Text) (x : Value) (fs gs : Fields) (s : List Text)
    → ((t : List Text) → new_keys gs t ≡ new_keys fs t)
    → new_keys (field k x gs) s ≡ new_keys (field k x fs) s
new_cons k x fs gs s h = ap (◌&&◌ (not (is_in (key_text k) s))) (h (key_text k ∷ s))

pub new-sort : (fs : Fields) (s : List Text) → new_keys (sort_fields fs) s ≡ new_keys fs s
unfolding sort_fields
new-sort no_fields s = refl
new-sort (field k x fs) s =
    new-insert k x (sort_fields fs) s ∙ new_cons k x fs (sort_fields fs) s (new-sort fs)
