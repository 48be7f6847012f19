-- ===== src/Repository/Retention/Pins.antt =====
-- The rows that `_keep` adds, and the states that a kept generation pins.
use marimo_export.Prelude.{
  ◌+◌, str_eq_self, str_eq_iff, Bool, true, false, ◌&&◌, not, List, [], ◌∷◌, ◌++◌, all, any-append,
  ◌≡◌, refl, sym, arith, Bool-cases, inl, inr,
}
use mathlib.Core.Path.{subst}
use marimo_export.Repository.Retention.{
  Key, ArtifactRow, key_of, is_key, has, Retained, metadata_of, content_of, not_kept, is_over,
  keep_added, keep, keep_generation, keep_state, pinned,
}
use marimo_export.Repository.Retention.Steps.{are_pins_kept}

pub is_key_self : (k : Key) → is_key k k ≡ true
unfolding is_key
is_key_self (a, b) = ground (arith, str_eq_self a, str_eq_self b)

pub is_key_eq : (k l : Key) → is_key k l ≡ true → k ≡ l
unfolding is_key
is_key_eq (a, b) (c, d) h = ground (arith, str_eq_iff a c, str_eq_iff b d)

all_mono :
    {A : Type 0} (p q : A → Bool) (xs : List A)
    → ((x : A) → p x ≡ true → q x ≡ true)
    → all p xs ≡ true
    → all q xs ≡ true
all_mono p q [] f h = refl
all_mono p q (x ∷ xs) f h = ground (arith, f x, all_mono p q xs f)

has_left : (k : Key) (xs ys : List ArtifactRow) → has k ys ≡ true → has k (xs ++ ys) ≡ true
has_left k xs ys h = ground (arith, any-append (λ r. is_key (key_of r) k) xs ys)

has_cons :
    (k : Key) (x : ArtifactRow) (ys : List ArtifactRow) → has k ys ≡ true → has k (x ∷ ys) ≡ true
has_cons k x ys h = ground arith

has_head : (x : ArtifactRow) (ys : List ArtifactRow) → has (key_of x) (x ∷ ys) ≡ true
has_head x ys = ground (arith, is_key_self (key_of x))

not_kept_known :
    (x : ArtifactRow) (xs ys : List ArtifactRow)
    → has (key_of x) ys ≡ true
    → not_kept (x ∷ xs) ys ≡ not_kept xs ys
unfolding not_kept
not_kept_known x xs ys h = rw h refl

not_kept_new :
    (x : ArtifactRow) (xs ys : List ArtifactRow)
    → has (key_of x) ys ≡ false
    → not_kept (x ∷ xs) ys ≡ x ∷ not_kept xs ys
unfolding not_kept
not_kept_new x xs ys h = rw h refl

not_kept_covers :
    (xs ys : List ArtifactRow) → all (λ s. has (key_of s) (not_kept xs ys ++ ys)) xs ≡ true
not_kept_covers [] ys = refl
not_kept_covers (x ∷ xs) ys =
    let Covered : List ArtifactRow → Type 0 =
      λ zs. all (λ s. has (key_of s) (zs ++ ys)) (x ∷ xs) ≡ true in
    elim (Bool-cases (has (key_of x) ys)) [
      | inl known ↦
          subst Covered (sym (not_kept_known x xs ys known))
            (ground (arith, has_left (key_of x) (not_kept xs ys) ys known, not_kept_covers xs ys))
      | inr new ↦ subst Covered (sym (not_kept_new x xs ys new)) (
          ground (
            arith,
            has_head x (not_kept xs ys ++ ys),
            all_mono (λ s. has (key_of s) (not_kept xs ys ++ ys))
                (λ s. has (key_of s) (x ∷ not_kept xs ys ++ ys)) xs
                (λ s. has_cons (key_of s) x (not_kept xs ys ++ ys)) (not_kept_covers xs ys),
          ))
    ]

-- What a row of `r` has, a row of `r'` has.
pub record IsGrown (r r' : Retained) : Type 0 where
  pub generations : (k : Key) → has k r.generations ≡ true → has k r'.generations ≡ true
  pub states : (k : Key) → has k r.states ≡ true → has k r'.states ≡ true

pub IsGrown-self : (r : Retained) → IsGrown r r
IsGrown-self r = record { generations = λ k h. h; states = λ k h. h }

pub keep-IsGrown :
    (p : Retained) (rows states : List ArtifactRow) (force : Bool) (r : Retained)
    → IsGrown p r
    → IsGrown p (keep rows states force r).1
unfolding keep keep_added
keep-IsGrown p rows states force r h =
    elim (Bool-cases (
      not force
      && is_over (metadata_of rows + metadata_of (not_kept states r.states))
          (content_of (not_kept states r.states)) (content_of rows) r)) [
            | inl refused ↦ rw refused h
            | inr taken ↦ rw taken (record {
              generations = λ k e. has_left k rows r.generations (h.generations k e);
              states = λ k e. has_left k (not_kept states r.states) r.states (h.states k e);
            })
          ]

pub keep_generation-IsGrown :
    (p : Retained) (row : ArtifactRow) (states : List ArtifactRow) (force : Bool) (r : Retained)
    → IsGrown p r
    → IsGrown p (keep_generation row states force r).1
unfolding keep_generation
keep_generation-IsGrown p row states force r h =
    elim (Bool-cases (has (key_of row) r.generations)) [
      | inl known ↦ rw known h
      | inr new ↦ rw new (keep-IsGrown p (row ∷ []) states force r h)
    ]

module _ (pins : List (Key × ArtifactRow)) where
  grown_states :
      (added states : List ArtifactRow) (gs : List ArtifactRow)
      → all (λ g. all (λ s. has (key_of s) states) (pinned pins (key_of g))) gs ≡ true
      → all (λ g. all (λ s. has (key_of s) (added ++ states)) (pinned pins (key_of g))) gs ≡ true
  grown_states added states gs h =
      all_mono (λ g. all (λ s. has (key_of s) states) (pinned pins (key_of g)))
        (λ g. all (λ s. has (key_of s) (added ++ states)) (pinned pins (key_of g))) gs
        (λ g.
          all_mono (λ s. has (key_of s) states) (λ s. has (key_of s) (added ++ states))
            (pinned pins (key_of g)) (λ s. has_left (key_of s) added states))
        h

  pub keep_state-pins :
      (row : ArtifactRow) (force : Bool) (r : Retained)
      → are_pins_kept pins r ≡ true
      → are_pins_kept pins (keep_state row force r).1 ≡ true
  unfolding keep keep_added
  keep_state-pins row force r h =
      elim (Bool-cases (
        not force
        && is_over (metadata_of [] + metadata_of (not_kept (row ∷ []) r.states))
            (content_of (not_kept (row ∷ []) r.states)) (content_of []) r)) [
              | inl refused ↦ rw refused h
              | inr taken ↦
                  rw taken (grown_states (not_kept (row ∷ []) r.states) r.states r.generations h)
            ]

  pub keep_generation-pins :
      (row : ArtifactRow) (force : Bool) (r : Retained)
      → are_pins_kept pins r ≡ true
      → are_pins_kept pins (keep_generation row (pinned pins (key_of row)) force r).1 ≡ true
  unfolding keep_generation keep keep_added
  keep_generation-pins row force r h =
      let added = not_kept (pinned pins (key_of row)) r.states in
      elim (Bool-cases (has (key_of row) r.generations)) [
        | inl known ↦ rw known h
        | inr new ↦
            elim (Bool-cases (
              not force
              && is_over (metadata_of (row ∷ []) + metadata_of added) (content_of added)
                  (content_of (row ∷ [])) r)) [
                    | inl refused ↦ rw (new, refused) h
                    | inr taken ↦
                        rw (new, taken)
                          (ground (
                            arith,
                            not_kept_covers (pinned pins (key_of row)) r.states,
                            grown_states added r.states r.generations h,
                          ))
                  ]
      ]
