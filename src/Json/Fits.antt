-- ===== src/Json/Fits.antt =====
-- How the bounds of a value follow from those of its parts.
use marimo_export.Prelude.{
  ℕ, suc, Bool, true, false, ◌&&◌, Option, none, some, leb, ltb, ◌≡◌, refl, arith, Result, ok, err,
  ◌+◌, ◌⊎◌, inl, inr, Bool-cases, ◌≤◌,
}
use marimo_export.Format.Texts.{Text}
use marimo_export.Json.Values.{
  JsonError, is_scalar_text, max_depth, enter, json_key, too_deep, too_many, bad_text, bad_key,
}
use marimo_export.Json.Measures.{larger, is_json_key}

unfoldable pub IsTaken : {A : Type 0} → Bool → A → ℕ → Result JsonError (A × ℕ) → Type 0
IsTaken {A} fits v n r =
    ((fits ≡ true) × (r ≡ ok (v, n))) ⊎ ((fits ≡ false) × (e : JsonError) × (r ≡ err e))

abbrev pub fits_at : Bool → ℕ → ℕ → ℕ → ℕ → Bool
fits_at sort_of deep depth_at total max_values =
    sort_of && (leb (depth_at + deep) max_depth && leb total max_values)

-- A container that is empty has no depth below it, and so fits where its place does.
pub enter_lem :
    (max_values d c : ℕ)
    → ((leb d max_depth ≡ true)
        × (leb (c + 1) max_values ≡ true)
        × (enter max_values d c ≡ ok (c + 1)))
      ⊎ (((leb d max_depth && leb (c + 1) max_values) ≡ false)
          × (e : JsonError) × (enter max_values d c ≡ err e))
enter_lem max_values d c = elim (Bool-cases (ltb max_depth d)) [
  | inl deep ↦ inr (ground (arith, deep), too_deep, rw deep refl)
  | inr fine ↦ elim (Bool-cases (ltb max_values (c + 1))) [
    | inl many ↦ inr (ground (arith, many), too_many, rw (fine, many) refl)
    | inr few ↦ inl (ground (arith, fine), ground (arith, few), rw (fine, few) refl)
  ]
]

-- The bounds of a container from those of its first element and of the others.
pub both_fit :
    (a b : Bool) (d e p n k m : ℕ)
    → fits_at a d (suc p) n m ≡ true
    → fits_at b e p k m ≡ true
    → fits_at (a && b) (larger (suc d) e) p k m ≡ true
both_fit a b d e p n k m h g = ground arith

pub first_fails :
    (a b : Bool) (d e p n k m : ℕ)
    → n ≤ k
    → fits_at a d (suc p) n m ≡ false
    → fits_at (a && b) (larger (suc d) e) p k m ≡ false
first_fails a b d e p n k m l h = ground arith

pub rest_fails :
    (a b : Bool) (d e p k m : ℕ)
    → fits_at b e p k m ≡ false
    → fits_at (a && b) (larger (suc d) e) p k m ≡ false
rest_fails a b d e p k m h = ground arith

pub left_out : (a b : Bool) (d p k m : ℕ) → a ≡ false → fits_at (a && b) d p k m ≡ false
left_out a b d p k m h = ground arith

pub few : (a : Bool) (d p n m : ℕ) → fits_at a d p n m ≡ true → leb n m ≡ true
few a d p n m h = ground arith

pub plus_zero : (c : ℕ) → c ≡ c + 0
plus_zero c = omega arith

pub plus_suc : (c n : ℕ) → c + 1 + n ≡ c + suc n
plus_suc c n = omega arith

pub plus_assoc : (c a b : ℕ) → c + a + b ≡ c + (a + b)
plus_assoc c a b = omega arith

pub not_entered :
    (a : Bool) (d p c n m : ℕ)
    → (leb p max_depth && leb (c + 1) m) ≡ false
    → fits_at a d p (c + 1 + n) m ≡ false
not_entered a d p c n m h = ground arith

pub too_big :
    (a : Bool) (d p c n m : ℕ) → ltb m (c + 1) ≡ true → fits_at a d p (c + 1 + n) m ≡ false
too_big a d p c n m h = ground arith

pub key_lem :
    (key : Option Text)
    → ((is_json_key key ≡ true) × (json_key key ≡ ok key))
      ⊎ ((is_json_key key ≡ false) × (e : JsonError) × (json_key key ≡ err e))
key_lem none = inr (refl, bad_key, refl)
key_lem (some t) = elim (Bool-cases (is_scalar_text t)) [
  | inl good ↦ inl (good, rw good refl)
  | inr bad ↦ inr (bad, bad_text, rw bad refl)
]

pub no_key : (k a b : Bool) (d p n m : ℕ) → k ≡ false → fits_at (k && a && b) d p n m ≡ false
no_key k a b d p n m h = ground arith

pub with_key : (k a : Bool) (d p n m : ℕ) → k ≡ true → fits_at (k && a) d p n m ≡ fits_at a d p n m
with_key k a d p n m h = ground arith

pub keyed : (c a b : ℕ) → c + 1 + a + b ≡ c + (1 + a + b)
keyed c a b = omega arith
