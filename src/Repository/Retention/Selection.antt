-- ===== src/Repository/Retention/Selection.antt =====
-- `_make_room`, `_retained` and the victims of `retention_candidates`. The rows under a lease, the
-- current generations of the identities that are leased or under preparation, and the rows that
-- admission matches or credits are kept first (`protect`), the rest while it fits (`fill`).
use marimo_export.Prelude.{
  ℕ, String, str_eq, Bool, true, false, ◌||◌, not, Option, none, some, List, [], ◌∷◌, length, any,
  sum_by, leb, if◌then◌else◌, Result, ok, err, ◌>>=◌,
}
use marimo_export.Repository.Retention.{
  Key, ArtifactRow, key_of, has, find_row, charge, Retained, not_kept, keep_generation, keep_state,
  Kind, Lease, Identity, Candidate, RetentionLimits, Catalog, RetentionError, key_error, generation,
  state, join_pins, pinned, fresh,
}

-- The bytes that admission will charge, when its row is not there yet.
unfoldable pub reserve : Kind → ℕ → ℕ → ℕ → ℕ → Retained → Retained
reserve generation metadata content metadata_back content_back r = record r {
  metadata_left = charge metadata metadata_back r.metadata_left;
  generation_left = charge content content_back r.generation_left;
}
reserve state metadata content metadata_back content_back r = record r {
  metadata_left = charge metadata metadata_back r.metadata_left;
  state_left = charge content content_back r.state_left;
}

unfoldable pub reserve_for :
    Candidate → Option ArtifactRow → Option ArtifactRow → Retained → Retained
unfolding reserve
reserve_for c (some existing) replaced r = r
reserve_for c none none r = reserve c.kind c.metadata_bytes c.content_bytes 0 0 r
reserve_for c none (some old) r =
    reserve c.kind c.metadata_bytes c.content_bytes old.metadata_bytes old.content_bytes r

abbrev pub find_replaced : String → Option String → List ArtifactRow → Option ArtifactRow
find_replaced key none rows = none
find_replaced key (some serial) rows = find_row (key, serial) rows

abbrev pub rows_of : Kind → Catalog → List ArtifactRow
rows_of generation c = c.generations
rows_of state c = c.states

abbrev pub is_known : String → List String → Bool
is_known key keys = any (λ k. str_eq k key) keys

abbrev pub add_key : String → List String → List String
add_key key keys = if is_known key keys then keys else key ∷ keys

unfoldable pub leased_identities : List Lease → List String
leased_identities [] = []
leased_identities (lease ∷ leases) =
    let rest = leased_identities leases in
    elim lease.kind [ generation ↦ add_key lease.artifact.0 rest | state ↦ rest ]

unfoldable pub preparing_identities : List String → List Identity → List String → List String
preparing_identities preparing [] keys = keys
preparing_identities preparing (i ∷ is) keys =
    let rest = preparing_identities preparing is keys in
    if is_known i.identity_key preparing then add_key i.identity_key rest else rest

abbrev pub count_of : String → List String → ℕ
count_of key counter = sum_by (λ k. if str_eq k key then 1 else 0) counter

abbrev pub is_full : RetentionLimits → List String → List String → ArtifactRow → Retained → Bool
is_full limits kept counter row r =
    has (key_of row) r.generations
    || not (is_known row.key kept)
    || leb limits.retained_generations (length r.generations)
    || leb limits.retained_generations_per_identity (count_of row.key counter)

module _ (pins : List (Key × ArtifactRow)) where
  unfoldable pub force_row : Kind → Option ArtifactRow → Retained → Retained
  unfolding pinned
  force_row kind none r = r
  force_row generation (some row) r = (keep_generation row (pinned pins (key_of row)) true r).1
  force_row state (some row) r = (keep_state row true r).1

  unfoldable pub make_room_among : Candidate → List ArtifactRow → Retained → Retained
  unfolding force_row reserve_for find_row
  make_room_among c rows r =
      let existing = find_row (c.key, c.serial) rows in
      let replaced = find_replaced c.key c.replacing rows in
      reserve_for c existing replaced (force_row c.kind replaced (force_row c.kind existing r))

  unfoldable pub make_room : Option Candidate → Catalog → Retained → Retained
  unfolding make_room_among
  make_room none c r = r
  make_room (some candidate) c r = make_room_among candidate (rows_of candidate.kind c) r

  unfoldable pub keep_leased : Catalog → List Lease → Retained → Retained
  unfolding force_row find_row
  keep_leased c [] r = r
  keep_leased c (lease ∷ leases) r =
      keep_leased c leases (force_row lease.kind (find_row lease.artifact (rows_of lease.kind c)) r)

  -- `generation_rows[(key, current)]`, kept
  unfoldable pub keep_current :
      Bool → String → String → List ArtifactRow → Retained → Result RetentionError (Bool × Retained)
  unfolding find_row
  keep_current force key current rows r = elim (find_row (key, current) rows) [
    | none ↦ err key_error
    | some row ↦ ok (keep_generation row (pinned pins (key_of row)) force r)
  ]

  unfoldable pub force_current :
      List String → List ArtifactRow → List Identity → Retained → Result RetentionError Retained
  unfolding keep_current
  force_current kept rows [] r = ok r
  force_current kept rows (i ∷ is) r = elim i.current [
    | none ↦ force_current kept rows is r
    | some current ↦
        if is_known i.identity_key kept
        then (keep_current true i.identity_key current rows r >>= λ (_, r').
            force_current kept rows is r')
        else force_current kept rows is r
  ]

  -- One turn of the loop over the other identities.
  unfoldable pub keep_identity :
      ℕ
      → List ArtifactRow
      → Identity
      → List String
      → Retained
      → Result RetentionError (List String × Retained)
  unfolding keep_current
  keep_identity maximum rows i kept r =
      if is_known i.identity_key kept || leb maximum (length kept)
      then ok (kept, r)
      else elim i.current [
        | none ↦ ok (i.identity_key ∷ kept, r)
        | some current ↦ keep_current false i.identity_key current rows r >>= λ (fits, r').
            ok (if fits then i.identity_key ∷ kept else kept, r')
      ]

  unfoldable pub keep_identities :
      ℕ
      → List ArtifactRow
      → List Identity
      → List String
      → Retained
      → Result RetentionError (List String × Retained)
  unfolding keep_identity
  keep_identities maximum rows [] kept r = ok (kept, r)
  keep_identities maximum rows (i ∷ is) kept r =
      keep_identity maximum rows i kept r >>= λ (kept', r').
      keep_identities maximum rows is kept' r'

  -- The loop over all generations; `counter` holds an identity once for each of its generations.
  unfoldable pub keep_generations :
      RetentionLimits → List String → List String → List ArtifactRow → Retained → Retained
  keep_generations limits kept counter [] r = r
  keep_generations limits kept counter (row ∷ rows) r =
      let (fits, r') = keep_generation row (pinned pins (key_of row)) false r in
      let passed = keep_generations limits kept counter rows r in
      let turned =
        keep_generations limits kept (if fits then row.key ∷ counter else counter) rows r' in
      if is_full limits kept counter row r then passed else turned

unfoldable pub keep_states : ℕ → List ArtifactRow → Retained → Retained
keep_states maximum [] r = r
keep_states maximum (row ∷ rows) r =
    let rest = keep_states maximum rows (keep_state row false r).1 in
    if leb maximum (length r.states) then r else rest

unfoldable pub identity_keys : List ArtifactRow → List String
identity_keys [] = []
identity_keys (r ∷ rs) = r.key ∷ identity_keys rs

-- `_retained` up to its first loop that may refuse: the state and the identities kept so far.
unfoldable pub protect :
    List (Key × ArtifactRow)
    → RetentionLimits
    → Option Candidate
    → Catalog
    → Result RetentionError (List String × Retained)
unfolding make_room keep_leased leased_identities preparing_identities force_current
protect pins limits candidate c =
    let kept = preparing_identities c.preparing c.identities (leased_identities c.leases) in
    force_current pins kept c.generations c.identities
      (keep_leased pins c c.leases (make_room pins candidate c (fresh limits)))
    >>= λ r. ok (kept, r)

-- The rest of `_retained`.
unfoldable pub fill :
    List (Key × ArtifactRow)
    → RetentionLimits
    → Catalog
    → List String
    → Retained
    → Result RetentionError Retained
unfolding keep_identities keep_generations keep_states identity_keys
fill pins limits c kept r =
    keep_identities pins limits.retained_identities c.generations c.identities kept r
    >>= λ (kept', r'). ok (
        keep_states limits.retained_prepared_states c.states
          (keep_generations pins limits kept' (identity_keys r'.generations) c.generations r'))

unfoldable pub retained :
    RetentionLimits → Option Candidate → Catalog → Result RetentionError Retained
unfolding join_pins protect fill
retained limits candidate c = join_pins c.pins c.states >>= λ pins.
    protect pins limits candidate c >>= λ (kept, r). fill pins limits c kept r

pub record RetentionVictims : Type 0 where
  pub states : List ArtifactRow
  pub generations : List ArtifactRow

-- The rows that are not retained.
unfoldable pub retention_candidates :
    RetentionLimits → Option Candidate → Catalog → Result RetentionError RetentionVictims
unfolding retained not_kept
retention_candidates limits candidate c = retained limits candidate c >>= λ r. ok (record {
  states = not_kept c.states r.states;
  generations = not_kept c.generations r.generations;
})
