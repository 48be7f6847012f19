-- ===== src/Repository/Retention/Apply.antt =====
-- `apply_retention` and `_prune_producers` over the tables. Deleting a generation deletes its pins,
-- and deleting a state that is still pinned raises, as the schema's foreign keys say.
use marimo_export.Prelude.{
  ℕ, String, str_eq, Bool, false, ◌&&◌, ◌||◌, not, Option, none, some, is_none, List, [], ◌∷◌,
  length, any, leb, ◌==◌, if◌then◌else◌, Result, ok, err, ◌>>=◌,
}
use marimo_export.Repository.Retention.{
  Key, ArtifactRow, key_of, is_key, has, find_row, Lease, Identity, Candidate, RetentionLimits,
  Catalog, RetentionError, generation, state,
}
use marimo_export.Repository.Retention.Selection.{
  RetentionVictims, retention_candidates, is_known, add_key, leased_identities,
}

pub record Retired : Type 0 where
  pub relative_path : String
  pub content_bytes : ℕ
  pub created_at_us : ℕ

-- The rows of `state_scopes` are identities of states.
pub record Store : Type 0 where
  pub catalog : Catalog
  pub scopes : List Identity
  pub retired : List Retired
  pub producers : List String

pub data ApplyError : Type 0 where
  key_error integrity_error : ApplyError

unfoldable pub is_same_row : ArtifactRow → ArtifactRow → Bool
unfolding is_key
is_same_row a b =
    is_key (key_of a) (key_of b)
    && (a.metadata_bytes == b.metadata_bytes)
    && (a.content_bytes == b.content_bytes)
    && str_eq a.others b.others

abbrev pub is_still : List ArtifactRow → ArtifactRow → Bool
is_still current row = elim (find_row (key_of row) current) [
  | none ↦ false
  | some found ↦ is_same_row found row
]

-- The candidates that are victims still, and unchanged.
unfoldable pub still_victims : List ArtifactRow → List ArtifactRow → List ArtifactRow
unfolding is_same_row find_row
still_victims [] current = []
still_victims (row ∷ rows) current =
    let rest = still_victims rows current in if is_still current row then row ∷ rest else rest

-- INSERT INTO retired_artifacts ... ON CONFLICT(relative_path) DO UPDATE SET content_bytes
unfoldable pub retire : String → ℕ → ℕ → List Retired → List Retired
retire path content now [] =
    record { relative_path = path; content_bytes = content; created_at_us = now } ∷ []
retire path content now (r ∷ rs) =
    let rest = retire path content now rs in
    if str_eq r.relative_path path then record r { content_bytes = content } ∷ rs else r ∷ rest

-- The retirements of the victims that the caller has moved away.
unfoldable pub retire_each :
    (Key → Option (String × ℕ)) → ℕ → List ArtifactRow → List Retired → List Retired
unfolding retire
retire_each moved now [] rs = rs
retire_each moved now (row ∷ rows) rs = elim (moved (key_of row)) [
  | none ↦ retire_each moved now rows rs
  | some (path, content) ↦ retire_each moved now rows (retire path content now rs)
]

abbrev pub is_current_of : List ArtifactRow → Identity → Bool
is_current_of victims i = elim i.current [
  | none ↦ false
  | some serial ↦ has (i.identity_key, serial) victims
]

-- UPDATE ... SET current_instance = NULL, for each victim
unfoldable pub clear_current : List ArtifactRow → List Identity → List Identity
clear_current victims [] = []
clear_current victims (i ∷ is) =
    (if is_current_of victims i then record i { current = none } else i) ∷ clear_current victims is

-- DELETE FROM ... WHERE key and instance are a victim's
unfoldable pub delete_victims : List ArtifactRow → List ArtifactRow → List ArtifactRow
unfolding is_key
delete_victims victims [] = []
delete_victims victims (r ∷ rs) =
    let rest = delete_victims victims rs in if has (key_of r) victims then rest else r ∷ rest

unfoldable pub delete_pins : List ArtifactRow → List (Key × Key) → List (Key × Key)
unfolding is_key
delete_pins victims [] = []
delete_pins victims (pin ∷ pins) =
    let rest = delete_pins victims pins in if has pin.0 victims then rest else pin ∷ rest

abbrev pub has_row_of : List ArtifactRow → Identity → Bool
has_row_of rows i = any (λ r. str_eq r.key i.identity_key) rows

-- DELETE ... WHERE current_instance IS NULL AND NOT EXISTS (a row of the key)
unfoldable pub drop_empty : List ArtifactRow → List Identity → List Identity
drop_empty rows [] = []
drop_empty rows (i ∷ is) =
    let rest = drop_empty rows is in
    if is_none i.current && not (has_row_of rows i) then rest else i ∷ rest

unfoldable pub leased_states : List Lease → List String
leased_states [] = []
leased_states (lease ∷ leases) =
    let rest = leased_states leases in
    elim lease.kind [ generation ↦ rest | state ↦ add_key lease.artifact.0 rest ]

unfoldable pub producers_of : List String → List Identity → List String → List String
producers_of keys [] found = found
producers_of keys (i ∷ is) found =
    let rest = producers_of keys is found in
    if is_known i.identity_key keys then add_key i.producer_sha256 rest else rest

abbrev pub is_used : List Identity → String → Bool
is_used is producer = any (λ i. str_eq i.producer_sha256 producer) is

-- The producers without an identity and without a state scope.
unfoldable pub unused_producers : Store → List String → List String
unused_producers s [] = []
unused_producers s (p ∷ ps) =
    let rest = unused_producers s ps in
    if is_used s.catalog.identities p || is_used s.scopes p then rest else p ∷ rest

unfoldable pub keep_producers : ℕ → List String → List String → List String
keep_producers maximum [] kept = kept
keep_producers maximum (p ∷ ps) kept =
    let more = keep_producers maximum ps (add_key p kept) in
    if leb maximum (length kept) then kept else more

unfoldable pub drop_producers : List String → List String → List String → List String
drop_producers unused kept [] = []
drop_producers unused kept (p ∷ ps) =
    let rest = drop_producers unused kept ps in
    if is_known p unused && not (is_known p kept) then rest else p ∷ rest

unfoldable pub prune_producers : ℕ → Store → Store
unfolding leased_identities leased_states producers_of unused_producers keep_producers
    drop_producers
prune_producers maximum s =
    let active =
      producers_of (leased_identities s.catalog.leases) s.catalog.identities
        (producers_of (leased_states s.catalog.leases) s.scopes []) in
    let unused = unused_producers s s.producers in
    record s {
      producers = drop_producers unused (keep_producers maximum unused active) s.producers;
    }

-- The tables after the deletions, in their order.
unfoldable pub deleted : ℕ → RetentionVictims → Store → Store
unfolding clear_current delete_victims delete_pins drop_empty prune_producers
deleted maximum v s =
    let generations = delete_victims v.generations s.catalog.generations in
    let states = delete_victims v.states s.catalog.states in
    prune_producers maximum (record s {
      catalog = record s.catalog {
        generations = generations;
        states = states;
        pins = delete_pins v.generations s.catalog.pins;
        identities = drop_empty generations (clear_current v.generations s.catalog.identities);
      };
      scopes = drop_empty states (clear_current v.states s.scopes);
    })

-- A state among the victims is still pinned, when the generations are gone.
unfoldable pub is_restricted : RetentionVictims → Catalog → Bool
unfolding delete_pins
is_restricted v c =
    any (λ pin. has pin.1 v.states && has pin.1 c.states) (delete_pins v.generations c.pins)

abbrev pub delete_all : ℕ → RetentionVictims → Store → Result ApplyError Store
delete_all maximum v s =
    if is_restricted v s.catalog then err integrity_error else ok (deleted maximum v s)

abbrev pub victims_among : RetentionVictims → RetentionVictims → RetentionVictims
victims_among candidates current = record {
  states = still_victims candidates.states current.states;
  generations = still_victims candidates.generations current.generations;
}

abbrev pub with_retired :
    (Key → Option (String × ℕ)) → (Key → Option (String × ℕ)) → ℕ → RetentionVictims → Store → Store
with_retired retired_states retired_generations now v s = record s {
  retired =
      retire_each retired_generations now v.generations
        (retire_each retired_states now v.states s.retired);
}

unfoldable pub finish_apply :
    ℕ → RetentionVictims → Store → Result ApplyError (Store × RetentionVictims)
finish_apply maximum v s = delete_all maximum v s >>= λ s'. ok (s', v)

unfoldable pub apply_to :
    ℕ
    → RetentionVictims
    → (Key → Option (String × ℕ))
    → (Key → Option (String × ℕ))
    → ℕ
    → Store
    → Result RetentionError RetentionVictims
    → Result ApplyError (Store × RetentionVictims)
unfolding still_victims retire_each finish_apply
apply_to maximum candidates retired_states retired_generations now s (err e) = err key_error
apply_to maximum candidates retired_states retired_generations now s (ok current) =
    finish_apply maximum (victims_among candidates current)
      (with_retired retired_states retired_generations now (victims_among candidates current) s)

unfoldable pub apply_retention :
    RetentionLimits
    → ℕ
    → Option Candidate
    → RetentionVictims
    → (Key → Option (String × ℕ))
    → (Key → Option (String × ℕ))
    → ℕ
    → Store
    → Result ApplyError (Store × RetentionVictims)
apply_retention limits maximum candidate candidates retired_states retired_generations now s =
    apply_to maximum candidates retired_states retired_generations now s
      (retention_candidates limits candidate s.catalog)
