-- ===== src/Repository/Retention/Steps.antt =====
-- One call of `keep_generation` or `keep_state`, and the three budgets.
use marimo_export.Prelude.{
  ◌+◌, ◌≤◌, Bool, false, ◌&&◌, not, List, [], ◌∷◌, all, sum_by-append, ◌≡◌, refl, arith, Bool-cases,
  inl, inr, ◌⊎◌,
}
use marimo_export.Repository.Retention.{
  Key, ArtifactRow, key_of, has, Retained, metadata_of, content_of, not_kept, is_over, keep_added,
  keep, keep_generation, pinned,
}

-- Each budget has the credit of `base`, and `base`'s debit with the bytes of what is kept.
pub record IsAccounted (base r : Retained) : Type 0 where
  pub metadata_credit : r.metadata_left.credit ≡ base.metadata_left.credit
  pub state_credit : r.state_left.credit ≡ base.state_left.credit
  pub generation_credit : r.generation_left.credit ≡ base.generation_left.credit
  pub metadata_debit :
      r.metadata_left.debit
      ≡ base.metadata_left.debit + metadata_of r.generations + metadata_of r.states
  pub state_debit : r.state_left.debit ≡ base.state_left.debit + content_of r.states
  pub generation_debit :
      r.generation_left.debit ≡ base.generation_left.debit + content_of r.generations

-- No budget is overdrawn.
pub record IsWithin (r : Retained) : Type 0 where
  pub metadata : r.metadata_left.debit ≤ r.metadata_left.credit
  pub states : r.state_left.debit ≤ r.state_left.credit
  pub generations : r.generation_left.debit ≤ r.generation_left.credit

-- Every state that a kept generation pins is kept.
abbrev pub are_pins_kept : List (Key × ArtifactRow) → Retained → Bool
are_pins_kept pins r =
    all (λ g. all (λ s. has (key_of s) r.states) (pinned pins (key_of g))) r.generations

keep_added-IsAccounted :
    (base : Retained) (rows added : List ArtifactRow) (force : Bool) (r : Retained)
    → IsAccounted base r
    → IsAccounted base (keep_added rows added force r).1
unfolding keep_added
keep_added-IsAccounted base rows added force r h =
    elim (Bool-cases (
      not force
      && is_over (metadata_of rows + metadata_of added) (content_of added) (content_of rows) r)) [
        | inl refused ↦ rw refused h
        | inr taken ↦ rw taken (record {
          metadata_credit = omega (arith, h.metadata_credit);
          state_credit = omega (arith, h.state_credit);
          generation_credit = omega (arith, h.generation_credit);
          metadata_debit = omega (
            arith,
            h.metadata_debit,
            sum_by-append (λ x. x.metadata_bytes) rows r.generations,
            sum_by-append (λ x. x.metadata_bytes) added r.states,
          );
          state_debit =
              omega (arith, h.state_debit, sum_by-append (λ x. x.content_bytes) added r.states);
          generation_debit =
              omega (
                arith,
                h.generation_debit,
                sum_by-append (λ x. x.content_bytes) rows r.generations,
              );
        })
      ]

pub keep-IsAccounted :
    (base : Retained) (rows states : List ArtifactRow) (force : Bool) (r : Retained)
    → IsAccounted base r
    → IsAccounted base (keep rows states force r).1
unfolding keep
keep-IsAccounted base rows states force r h =
    keep_added-IsAccounted base rows (not_kept states r.states) force r h

pub keep_generation-IsAccounted :
    (base : Retained) (row : ArtifactRow) (states : List ArtifactRow) (force : Bool) (r : Retained)
    → IsAccounted base r
    → IsAccounted base (keep_generation row states force r).1
unfolding keep_generation
keep_generation-IsAccounted base row states force r h =
    elim (Bool-cases (has (key_of row) r.generations)) [
      | inl known ↦ rw known h
      | inr new ↦ rw new (keep-IsAccounted base (row ∷ []) states force r h)
    ]

-- Without force a row is kept only where the budgets stay within their bounds.
keep_added-IsWithin :
    (rows added : List ArtifactRow) (r : Retained)
    → ((keep_added rows added false r).1 ≡ r) ⊎ IsWithin (keep_added rows added false r).1
unfolding keep_added
keep_added-IsWithin rows added r =
    elim (Bool-cases
      (is_over (metadata_of rows + metadata_of added) (content_of added) (content_of rows) r)) [
        | inl refused ↦ rw refused (inl refl)
        | inr taken ↦ rw taken (
            inr (record {
              metadata = ground (arith, taken);
              states = ground (arith, taken);
              generations = ground (arith, taken);
            }))
      ]

-- What stands at `p`, or within the budgets.
abbrev pub IsSettled : Retained → Retained → Type 0
IsSettled p r = (r ≡ p) ⊎ IsWithin r

pub keep-IsSettled :
    (p : Retained) (rows states : List ArtifactRow) (r : Retained)
    → IsSettled p r
    → IsSettled p (keep rows states false r).1
unfolding keep
keep-IsSettled p rows states r h = elim (keep_added-IsWithin rows (not_kept states r.states) r) [
  | inl same ↦ rw same h
  | inr within ↦ inr within
]

pub keep_generation-IsSettled :
    (p : Retained) (row : ArtifactRow) (states : List ArtifactRow) (r : Retained)
    → IsSettled p r
    → IsSettled p (keep_generation row states false r).1
unfolding keep_generation
keep_generation-IsSettled p row states r h = elim (Bool-cases (has (key_of row) r.generations)) [
  | inl known ↦ rw known h
  | inr new ↦ rw new (keep-IsSettled p (row ∷ []) states r h)
]
