-- ===== src/Prelude/Latest.antt =====
-- The search for the last element that passes a test, as both observation queues write it:
-- `for offset, x in enumerate(reversed(xs)): if test(x): return len(xs) - offset - 1`.
use marimo_export.Prelude.Tests.{if◌then◌else◌, Bool-cases, Option-cases}
use marimo_export.Prelude.Lists.{length, length-append, any, any-append}
use Prim.Native.Nat.{ℕ, ◌+◌, ◌-◌}
use mathlib.Core.Path.{◌≡◌, refl, ap, ◌∙◌, sym}
use mathlib.Core.Logic.{inl, inr}
use mathlib.Core.Bool.{Bool, true, false}
use mathlib.Core.List.{
  List, [], ◌∷◌, ◌++◌, reverse, reverse-append, reverse-reverse, reverse-cons, append_assoc,
}
use mathlib.Core.Option.{Option, none, some}
use native.Mathlib.Omega.{arith}

module _ {ℓ} {A : Type ℓ} where
  unfoldable pub first_offset : (A → Bool) → ℕ → List A → Option ℕ
  first_offset t offset [] = none
  first_offset t offset (x ∷ xs) = if t x then some offset else first_offset t (offset + 1) xs

  unfoldable pub latest_index : (A → Bool) → List A → Option ℕ
  unfolding first_offset
  latest_index t xs = elim (first_offset t 0 (reverse xs)) [
    | none ↦ none
    | some offset ↦ some (length xs - offset - 1)
  ]

  -- The element at index `i` is the last of `xs` that passes the test.
  pub record IsLatest (t : A → Bool) (xs : List A) (i : ℕ) : Type ℓ where
    pub before : List A
    pub item : A
    pub after : List A
    pub splits : xs ≡ before ++ (item ∷ after)
    pub index : i ≡ length before
    pub passes : t item ≡ true
    pub last : any t after ≡ false

module _ {ℓ} {A : Type ℓ} where
  length-reverse : (xs : List A) → length (reverse xs) ≡ length xs
  length-reverse [] = refl
  length-reverse (x ∷ xs) =
      rw reverse-cons (omega (arith, length-append {ℓ} (reverse xs) (x ∷ []), length-reverse xs))

  any-reverse : (t : A → Bool) (xs : List A) → any t (reverse xs) ≡ any t xs
  any-reverse t [] = refl
  any-reverse t (x ∷ xs) =
      rw reverse-cons (ground (arith, any-append t (reverse xs) (x ∷ []), any-reverse t xs))

  first_offset-none :
      (t : A → Bool) (o : ℕ) (xs : List A) → first_offset t o xs ≡ none → any t xs ≡ false
  unfolding first_offset
  first_offset-none t o [] h = refl
  first_offset-none t o (x ∷ xs) h = ground (arith, first_offset-none t (o + 1) xs)

  first_offset-some :
      (t : A → Bool) (o : ℕ) (xs : List A) (k : ℕ)
      → first_offset t o xs ≡ some k
      → (pre : List A) × (x : A) × (post : List A) × (xs ≡ pre ++ (x ∷ post))
        × (k ≡ o + length pre)
        × (t x ≡ true)
        × (any t pre ≡ false)
  unfolding first_offset
  first_offset-some t o [] k h = absurd (ground arith)
  first_offset-some t o (x ∷ xs) k h = elim (Bool-cases (t x)) [
    | inl hit ↦ ([], x, xs, refl, ground arith, hit, refl)
    | inr miss ↦
        let (pre, y, post, e, n, hit, free) = first_offset-some t (o + 1) xs k (ground arith) in
        (x ∷ pre, y, post, ap (◌∷◌ x) e, omega arith, hit, rw (miss, free))
  ]

  pub latest_index-none : (t : A → Bool) (xs : List A) → latest_index t xs ≡ none → any t xs ≡ false
  unfolding latest_index
  latest_index-none t xs h = elim (Option-cases (first_offset t 0 (reverse xs))) [
    | inl e ↦ sym (any-reverse t xs) ∙ first_offset-none t 0 (reverse xs) e
    | inr (k, e) ↦ absurd (ground arith)
  ]

  pub latest_index-some :
      (t : A → Bool) (xs : List A) (i : ℕ) → latest_index t xs ≡ some i → IsLatest t xs i
  unfolding latest_index
  latest_index-some t xs i h = elim (Option-cases (first_offset t 0 (reverse xs))) [
    | inl e ↦ absurd (ground arith)
    | inr (k, e) ↦
        let (pre, x, post, split, n, hit, free) = first_offset-some t 0 (reverse xs) k e in
        let whole : xs ≡ reverse post ++ (x ∷ reverse pre) =
          sym (reverse-reverse xs) ∙ (ap reverse split ∙ turned pre x post) in
        let at : i ≡ length xs - k - 1 = ground arith in
        let counted : length (reverse xs) ≡ length (pre ++ (x ∷ post)) = ap length split in
        record {
          before = reverse post;
          item = x;
          after = reverse pre;
          splits = whole;
          index = omega (
            arith,
            at,
            counted,
            n,
            length-reverse xs,
            length-reverse post,
            length-append {ℓ} pre (x ∷ post),
          );
          passes = hit;
          last = any-reverse t pre ∙ free;
        }
  ]
    where
      turned :
          (pre : List A) (x : A) (post : List A)
          → reverse (pre ++ (x ∷ post)) ≡ reverse post ++ (x ∷ reverse pre)
      turned pre x post = reverse-append pre (x ∷ post) ∙ rw (reverse-cons x post, append_assoc)
