-- ===== src/Repository/Retention/Applied.antt =====
-- `apply_retention` as a whole, and the rows under a lease.
use marimo_export.Prelude.{
  ℕ, String, true, false, Option, some, List, [], ◌∷◌, ◌++◌, ◌≡◌, refl, arith, Result, ok, err,
  Bool-cases, Option-cases, inl, inr, ◌⊎◌,
}
use mathlib.Core.Path.{subst}
use marimo_export.Repository.Retention.{
  Key, ArtifactRow, key_of, is_key, has, find_row, Kind, Lease, Candidate, RetentionLimits,
  generation, state,
}
use marimo_export.Repository.Retention.Selection.{RetentionVictims, rows_of}
use marimo_export.Repository.Retention.Pins.{is_key_eq}
use marimo_export.Repository.Retention.Sound.{is_linked}
use marimo_export.Repository.Retention.Victims.{leased_is_no_victim, victims_of}
use marimo_export.Repository.Retention.Apply.{
  Store, ApplyError, integrity_error, still_victims, is_still, delete_victims, is_restricted,
  deleted, prune_producers, victims_among, with_retired, finish_apply, apply_to, apply_retention,
}

has-find_row :
    (k : Key) (xs : List ArtifactRow) {r : ArtifactRow} → find_row k xs ≡ some r → has k xs ≡ true
unfolding find_row
has-find_row k [] h = absurd (ground arith)
has-find_row k (x ∷ xs) h = elim (Option-cases (find_row k xs)) [
  | inr (found, e) ↦ ground (arith, has-find_row k xs e)
  | inl missing ↦ ground (arith, missing)
]

still-has :
    (row : ArtifactRow) (current : List ArtifactRow)
    → is_still current row ≡ true
    → has (key_of row) current ≡ true
still-has row current h = elim (Option-cases (find_row (key_of row) current)) [
  | inl missing ↦ absurd (ground (arith, missing))
  | inr (found, e) ↦ has-find_row (key_of row) current e
]

no_still_victim :
    (k : Key) (rows current : List ArtifactRow)
    → has k current ≡ false
    → has k (still_victims rows current) ≡ false
unfolding still_victims
no_still_victim k [] current h = refl
no_still_victim k (row ∷ rows) current h = elim (Bool-cases (is_still current row)) [
  | inr gone ↦ rw gone (no_still_victim k rows current h)
  | inl still ↦ elim (Bool-cases (is_key (key_of row) k)) [
    | inr other ↦ rw still (ground (arith, other, no_still_victim k rows current h))
    | inl same ↦ absurd (
        let e : has k current ≡ true =
          subst (λ l. has l current ≡ true) (is_key_eq (key_of row) k same)
            (still-has row current still) in
        ground (arith, e, h))
  ]
]

delete_victims-has :
    (k : Key) (victims rows : List ArtifactRow)
    → has k victims ≡ false
    → has k rows ≡ true
    → has k (delete_victims victims rows) ≡ true
unfolding delete_victims
delete_victims-has k victims [] n h = absurd (ground arith)
delete_victims-has k victims (r ∷ rs) n h = elim (Bool-cases (has (key_of r) victims)) [
  | inr stays ↦ rw stays (ground (arith, h, delete_victims-has k victims rs n))
  | inl goes ↦ elim (Bool-cases (is_key (key_of r) k)) [
    | inr other ↦ rw goes (delete_victims-has k victims rs n (ground (arith, h, other)))
    | inl same ↦ absurd (
        let e : has k victims ≡ true =
          subst (λ l. has l victims ≡ true) (is_key_eq (key_of r) k same) goes in
        ground (arith, e, n))
  ]
]

deleted-has :
    (kind : Kind) (k : Key) (maximum : ℕ) (v : RetentionVictims) (s : Store)
    → has k (victims_of kind v) ≡ false
    → has k (rows_of kind s.catalog) ≡ true
    → has k (rows_of kind (deleted maximum v s).catalog) ≡ true
unfolding deleted prune_producers
deleted-has generation k maximum v s n h =
    delete_victims-has k v.generations s.catalog.generations n h
deleted-has state k maximum v s n h = delete_victims-has k v.states s.catalog.states n h

still_victims_of :
    (kind : Kind) (k : Key) (candidates current : RetentionVictims)
    → has k (victims_of kind current) ≡ false
    → has k (victims_of kind (victims_among candidates current)) ≡ false
still_victims_of generation k candidates current h =
    no_still_victim k candidates.generations current.generations h
still_victims_of state k candidates current h = no_still_victim k candidates.states current.states h

finish_apply_lem :
    (kind : Kind) (k : Key) (maximum : ℕ) (v : RetentionVictims) (s : Store)
    → has k (victims_of kind v) ≡ false
    → has k (rows_of kind s.catalog) ≡ true
    → (finish_apply maximum v s ≡ err integrity_error)
      ⊎ ((s' : Store) × (finish_apply maximum v s ≡ ok (s', v))
          × (has k (rows_of kind s'.catalog) ≡ true))
unfolding finish_apply
finish_apply_lem kind k maximum v s n h = elim (Bool-cases (is_restricted v s.catalog)) [
  | inl pinned ↦ inl (rw pinned refl)
  | inr free ↦ inr (deleted maximum v s, rw free refl, deleted-has kind k maximum v s n h)
]

module _ (limits : RetentionLimits) (retained_producers : ℕ) (candidate : Option Candidate)
    (candidates : RetentionVictims) (retired_states retired_generations : Key → Option (String × ℕ))
    (now : ℕ) (s : Store) where
  abbrev pub applied : Result ApplyError (Store × RetentionVictims)
  applied =
      apply_retention limits retained_producers candidate candidates retired_states
        retired_generations now s

  -- Over a catalog without dangling references an application of the retention raises on a
  -- state that is still pinned, which is rolled back, or it ends and a row that a lease holds
  -- is in its table then, whatever candidates the caller brings.
  pub applied_keeps_leased :
      (before after : List Lease) (lease : Lease) {row : ArtifactRow}
      → is_linked s.catalog ≡ true
      → s.catalog.leases ≡ before ++ lease ∷ after
      → find_row lease.artifact (rows_of lease.kind s.catalog) ≡ some row
      → (applied ≡ err integrity_error)
        ⊎ ((s' : Store) × (v : RetentionVictims) × (applied ≡ ok (s', v))
            × (has lease.artifact (rows_of lease.kind s'.catalog) ≡ true))
  unfolding apply_retention apply_to
  applied_keeps_leased before after lease linked split found =
      let (current, ran, none_leased) =
        leased_is_no_victim limits candidate s.catalog before after lease linked split found in
      let v = victims_among candidates current in
      elim (finish_apply_lem lease.kind lease.artifact retained_producers v
        (with_retired retired_states retired_generations now v s)
        (still_victims_of lease.kind lease.artifact candidates current none_leased)
        (has-find_row lease.artifact (rows_of lease.kind s.catalog) found)) [
          | inl pinned ↦ inl (rw ran pinned)
          | inr (s', ended, there) ↦ inr (s', v, rw ran ended, there)
        ]
