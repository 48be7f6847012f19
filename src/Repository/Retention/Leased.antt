-- ===== src/Repository/Retention/Leased.antt =====
-- `keep_leased` and the rows under a lease.
use marimo_export.Prelude.{
  Bool, true, ◌||◌, some, is_none, List, [], ◌∷◌, all, ◌≡◌, refl, arith, Bool-cases, Option-cases,
  inl, inr,
}
use mathlib.Core.Path.{subst}
use marimo_export.Repository.Retention.{
  Key, ArtifactRow, key_of, is_key, has, find_row, Retained, not_kept, keep_added, keep,
  keep_generation, keep_state, pinned, Kind, Lease, Catalog, generation, state,
}
use marimo_export.Repository.Retention.Selection.{force_row, keep_leased, rows_of}
use marimo_export.Repository.Retention.Phases.{keep_leased-P}
use marimo_export.Repository.Retention.Pins.{
  is_key_self, is_key_eq, IsGrown, IsGrown-self, keep-IsGrown, keep_generation-IsGrown,
}

abbrev pub kept_of : Kind → Retained → List ArtifactRow
kept_of generation r = r.generations
kept_of state r = r.states

-- The leased row, where the catalog has one, is kept.
abbrev pub is_protected : Catalog → Retained → Lease → Bool
is_protected c r lease =
    is_none (find_row lease.artifact (rows_of lease.kind c))
    || has lease.artifact (kept_of lease.kind r)

pub find_row_key :
    (k : Key) (rows : List ArtifactRow) (row : ArtifactRow)
    → find_row k rows ≡ some row
    → is_key (key_of row) k ≡ true
unfolding find_row
find_row_key k [] row h = absurd (ground arith)
find_row_key k (r ∷ rs) row h = elim (Option-cases (find_row k rs)) [
  | inr (found, e) ↦ find_row_key k rs row (ground (arith, e))
  | inl missing ↦ ground (arith, missing)
]

forced_generation :
    (row : ArtifactRow) (states : List ArtifactRow) (r : Retained)
    → has (key_of row) (keep_generation row states true r).1.generations ≡ true
unfolding keep_generation keep keep_added
forced_generation row states r = elim (Bool-cases (has (key_of row) r.generations)) [
  | inl known ↦ rw known known
  | inr new ↦ rw new (ground (arith, is_key_self (key_of row)))
]

forced_state :
    (row : ArtifactRow) (r : Retained) → has (key_of row) (keep_state row true r).1.states ≡ true
unfolding keep keep_added not_kept
forced_state row r = elim (Bool-cases (has (key_of row) r.states)) [
  | inl known ↦ rw known known
  | inr new ↦ rw new (ground (arith, is_key_self (key_of row)))
]

module _ (pins : List (Key × ArtifactRow)) where
  force_row-has :
      (kind : Kind) (row : ArtifactRow) (r : Retained)
      → has (key_of row) (kept_of kind (force_row pins kind (some row) r)) ≡ true
  unfolding force_row
  force_row-has generation row r = forced_generation row (pinned pins (key_of row)) r
  force_row-has state row r = forced_state row r

  force_row-is_protected :
      (c : Catalog) (lease : Lease) (r : Retained)
      → is_protected c
          (force_row pins lease.kind (find_row lease.artifact (rows_of lease.kind c)) r)
          lease
        ≡ true
  force_row-is_protected c lease r =
      elim (Option-cases (find_row lease.artifact (rows_of lease.kind c))) [
        | inl missing ↦ rw missing refl
        | inr (row, found) ↦
            let same =
              is_key_eq (key_of row) lease.artifact
                (find_row_key lease.artifact (rows_of lease.kind c) row found) in
            let held : has lease.artifact
                  (kept_of lease.kind (force_row pins lease.kind (some row) r))
                ≡ true =
              subst
                (λ k. has k (kept_of lease.kind (force_row pins lease.kind (some row) r)) ≡ true)
                same (force_row-has lease.kind row r) in
            rw found held
      ]

grown_has :
    (kind : Kind) (k : Key) (r r' : Retained)
    → IsGrown r r'
    → has k (kept_of kind r) ≡ true
    → has k (kept_of kind r') ≡ true
grown_has generation k r r' grown h = grown.generations k h
grown_has state k r r' grown h = grown.states k h

grown-is_protected :
    (c : Catalog) (r r' : Retained) (lease : Lease)
    → IsGrown r r'
    → is_protected c r lease ≡ true
    → is_protected c r' lease ≡ true
grown-is_protected c r r' lease grown h =
    ground (arith, grown_has lease.kind lease.artifact r r' grown)

pub are_protected :
    (c : Catalog) (r r' : Retained) (leases : List Lease)
    → IsGrown r r'
    → all (is_protected c r) leases ≡ true
    → all (is_protected c r') leases ≡ true
are_protected c r r' [] grown h = refl
are_protected c r r' (lease ∷ leases) grown h =
    ground (arith, grown-is_protected c r r' lease grown, are_protected c r r' leases grown)

pub keep_leased-is_protected :
    (pins : List (Key × ArtifactRow)) (c : Catalog) (leases : List Lease) (r : Retained)
    → all (is_protected c (keep_leased pins c leases r)) leases ≡ true
unfolding keep_leased
keep_leased-is_protected pins c [] r = refl
keep_leased-is_protected pins c (lease ∷ leases) r =
    let first = force_row pins lease.kind (find_row lease.artifact (rows_of lease.kind c)) r in
    let grown =
      keep_leased-P pins (IsGrown first)
        (λ row q. keep_generation-IsGrown first row (pinned pins (key_of row)) true q)
        (λ row q. keep-IsGrown first [] (row ∷ []) true q) c leases first (IsGrown-self first) in
    ground (
      arith,
      grown-is_protected c first (keep_leased pins c leases first) lease grown
          (force_row-is_protected pins c lease r),
      keep_leased-is_protected pins c leases first,
    )
