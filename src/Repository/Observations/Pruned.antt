-- ===== src/Repository/Observations/Pruned.antt =====
-- `_prune_observation_table` and the limits of a producer's rows.
use marimo_export.Prelude.{
  ℕ, ◌+◌, ◌-◌, ◌≤◌, String, str_eq, Bool, true, false, ◌||◌, List, [], ◌∷◌, ◌≡◌, refl, sym, arith,
  ltb, leb, sum_by, if◌then◌else◌, Bool-cases, inl, inr,
}
use mathlib.Core.Path.{subst}
use marimo_export.Repository.Observations.{
  Row, Limits, place, ordered, victims_from, is_victim, delete_rows, prune_observation_table,
}

-- A measure summed over the rows of one producer.
abbrev pub of_producer : String → (Row → ℕ) → List Row → ℕ
of_producer p f = sum_by (λ r. if str_eq r.producer_sha256 p then f r else 0)

sum_by-place : (f : Row → ℕ) (r : Row) (rs : List Row) → sum_by f (place r rs) ≡ f r + sum_by f rs
unfolding place
sum_by-place f r [] = refl
sum_by-place f r (s ∷ rs) = ground (arith, sum_by-place f r rs)

-- Sorting loses no row of the producer.
sum_by-ordered :
    (p : String) (f : Row → ℕ) (rs : List Row) → sum_by f (ordered p rs) ≡ of_producer p f rs
unfolding ordered
sum_by-ordered p f [] = refl
sum_by-ordered p f (r ∷ rs) = ground (arith, sum_by-ordered p f rs, sum_by-place f r (ordered p rs))

-- The measure of the rows that survive a deletion.
abbrev surviving : List ℕ → (Row → ℕ) → Row → ℕ
surviving ids f r = if is_victim ids r then 0 else f r

sum_by-delete_rows :
    (p : String) (ids : List ℕ) (f : Row → ℕ) (rs : List Row)
    → of_producer p f (delete_rows ids rs) ≡ of_producer p (surviving ids f) rs
unfolding delete_rows
sum_by-delete_rows p ids f [] = refl
sum_by-delete_rows p ids f (r ∷ rs) = ground (arith, sum_by-delete_rows p ids f rs)

surviving_more :
    (i : ℕ) (ids : List ℕ) (f : Row → ℕ) (rs : List Row)
    → sum_by (surviving (i ∷ ids) f) rs ≤ sum_by (surviving ids f) rs
surviving_more i ids f [] = omega arith
surviving_more i ids f (r ∷ rs) = ground (arith, surviving_more i ids f rs)

-- The test under which the walk drops a row.
abbrev drops : Limits → ℕ → ℕ → Row → Bool
drops limits index kept r =
    leb limits.observations_per_producer index
    || ltb limits.observation_relation_bytes (kept + r.byte_count)

module _ (limits : Limits) (index kept : ℕ) (r : Row) (rs : List Row) where
  abbrev after_drop : List ℕ
  after_drop = victims_from limits (index + 1) kept rs

  abbrev after_keep : List ℕ
  after_keep = victims_from limits (index + 1) (kept + r.byte_count) rs

  victims_dropped :
      drops limits index kept r ≡ true
      → victims_from limits index kept (r ∷ rs) ≡ r.rowid ∷ after_drop
  unfolding victims_from
  victims_dropped h = rw h

  victims_kept :
      drops limits index kept r ≡ false → victims_from limits index kept (r ∷ rs) ≡ after_keep
  unfolding victims_from
  victims_kept h = rw h

  survivors_dropped :
      (f : Row → ℕ)
      → sum_by (surviving (r.rowid ∷ after_drop) f) (r ∷ rs) ≤ sum_by (surviving after_drop f) rs
  survivors_dropped f = ground (arith, surviving_more r.rowid after_drop f rs)

  survivors_kept :
      (f : Row → ℕ)
      → sum_by (surviving after_keep f) (r ∷ rs) ≤ f r + sum_by (surviving after_keep f) rs
  survivors_kept f = ground arith

-- The walk keeps at most the rows that are left of the limit, and their bytes with those kept.
walk_count :
    (limits : Limits) (index kept : ℕ) (rs : List Row)
    → sum_by (surviving (victims_from limits index kept rs) (λ r. 1)) rs
      ≤ limits.observations_per_producer - index
walk_count limits index kept [] = omega arith
walk_count limits index kept (r ∷ rs) = elim (Bool-cases (drops limits index kept r)) [
  | inl drop ↦
      subst
        (λ ids. sum_by (surviving ids (λ r. 1)) (r ∷ rs) ≤ limits.observations_per_producer - index)
        (sym (victims_dropped limits index kept r rs drop))
        (omega (
          arith,
          survivors_dropped limits index kept r rs (λ r. 1),
          walk_count limits (index + 1) kept rs,
        ))
  | inr keep ↦
      subst
        (λ ids. sum_by (surviving ids (λ r. 1)) (r ∷ rs) ≤ limits.observations_per_producer - index)
        (sym (victims_kept limits index kept r rs keep))
        (ground (
          arith,
          survivors_kept limits index kept r rs (λ r. 1),
          walk_count limits (index + 1) (kept + r.byte_count) rs,
        ))
]

walk_bytes :
    (limits : Limits) (index kept : ℕ) (rs : List Row)
    → kept ≤ limits.observation_relation_bytes
    → kept + sum_by (surviving (victims_from limits index kept rs) (λ r. r.byte_count)) rs
      ≤ limits.observation_relation_bytes
walk_bytes limits index kept [] h = omega arith
walk_bytes limits index kept (r ∷ rs) h = elim (Bool-cases (drops limits index kept r)) [
  | inl drop ↦
      subst
        (λ ids.
          kept + sum_by (surviving ids (λ r. r.byte_count)) (r ∷ rs)
          ≤ limits.observation_relation_bytes)
        (sym (victims_dropped limits index kept r rs drop))
        (omega (
          arith,
          survivors_dropped limits index kept r rs (λ r. r.byte_count),
          walk_bytes limits (index + 1) kept rs h,
        ))
  | inr keep ↦
      subst
        (λ ids.
          kept + sum_by (surviving ids (λ r. r.byte_count)) (r ∷ rs)
          ≤ limits.observation_relation_bytes)
        (sym (victims_kept limits index kept r rs keep))
        (omega (
          arith,
          survivors_kept limits index kept r rs (λ r. r.byte_count),
          walk_bytes limits (index + 1) (kept + r.byte_count) rs (ground arith),
        ))
]

surviving-of_producer :
    (p : String) (ids : List ℕ) (f : Row → ℕ) (rs : List Row)
    → of_producer p (surviving ids f) rs ≡ sum_by (surviving ids f) (ordered p rs)
surviving-of_producer p ids f rs = sym (sum_by-ordered p (surviving ids f) rs)

-- After pruning, the producer has at most the allowed number of rows in the table and their
-- bytes are within the table's limit, whatever the table held before.
pub prune_observation_table_bounds :
    (p : String) (limits : Limits) (rows : List Row)
    → (of_producer p (λ r. 1) (prune_observation_table p limits rows)
        ≤ limits.observations_per_producer)
      × (of_producer p (λ r. r.byte_count) (prune_observation_table p limits rows)
          ≤ limits.observation_relation_bytes)
unfolding prune_observation_table
prune_observation_table_bounds p limits rows =
    let ids = victims_from limits 0 0 (ordered p rows) in
    (
      omega (
        arith,
        sum_by-delete_rows p ids (λ r. 1) rows,
        surviving-of_producer p ids (λ r. 1) rows,
        walk_count limits 0 0 (ordered p rows),
      ),
      omega (
        arith,
        sum_by-delete_rows p ids (λ r. r.byte_count) rows,
        surviving-of_producer p ids (λ r. r.byte_count) rows,
        walk_bytes limits 0 0 (ordered p rows) (omega arith),
      ),
    )
