-- ===== src/Repository/Artifacts.antt =====
-- The tables of prepared states and generations, and the checks of _repository/sqlite/artifacts.py
-- that both kinds of commit make. `serial` is the column `instance`. A row of `identities` or of
-- `state_scopes` is a pointer; `subject_sha256` is its `spec_sha256` or its `state_fingerprint`.
-- The digests of a pointer are those that its key is a digest of.
pub mod Slots
pub mod Admitted
pub mod Committed
pub mod Fenced
pub mod Generations
pub mod PreparedStates
use marimo_export.Prelude.{
  ℕ, zero, ◌+◌, String, str_eq, Bool, true, false, ◌&&◌, ◌||◌, not, Option, none, some, is_none,
  List, [], ◌∷◌, length, all, any, sum_by, ltb, ◌==◌, bytes_eq, if◌then◌else◌, Result, ok, err,
  ◌>>=◌, ◌>>◌, raise_if,
}
use marimo_export.Repository.Observations.{Db}
use marimo_export.Repository.Leases.{
  Leases, ArtifactKind, generation, state, maximum, delete_where, update_where,
}
use marimo_export.Repository.Leases.Fences.{FenceError, fence_error}
use marimo_export.Repository.Retention.{Key, is_key}
use marimo_export.Repository.Retention.Apply.{Retired}

-- `RepositoryFenceError`, `RepositoryLimitError`, `ValueError`, `RepositoryError` and SQLite's
-- `IntegrityError`.
pub data CommitError : Type 0 where
  fenced over_limit bad_value corrupt integrity : CommitError

pub record Pointer : Type 0 where
  pub key : String
  pub producer_sha256 : String
  pub output_plan_sha256 : String
  pub subject_sha256 : String
  pub current : Option String
  pub touched_at_us : ℕ

-- `captured` is a column of `generations` only.
pub record Body : Type 0 where
  pub key : String
  pub serial : String
  pub metadata : List ℕ
  pub metadata_bytes : ℕ
  pub captured : ℕ
  pub content_bytes : ℕ
  pub created_at_us : ℕ
  pub accessed_at_us : ℕ

pub record Tables : Type 0 where
  pub db : Db
  pub leases : Leases
  pub identities : List Pointer
  pub state_scopes : List Pointer
  pub generations : List Body
  pub prepared_states : List Body
  pub generation_states : List (Key × Key)
  pub retired : List Retired

-- The fields of `RepositoryLimits` that admission reads.
pub record AdmissionLimits : Type 0 where
  pub metadata_bytes : ℕ
  pub prepared_state_bytes : ℕ
  pub generation_bytes : ℕ
  pub repository_bytes : ℕ

-- What a commit of either kind brings for its two tables.
pub record Commit : Type 0 where
  pub key : String
  pub producer_sha256 : String
  pub output_plan_sha256 : String
  pub subject_sha256 : String
  pub serial : String
  pub replacing : Option String
  pub metadata : List ℕ
  pub captured : ℕ
  pub content_bytes : ℕ
  pub now_us : ℕ

-- INSERT INTO identities ... ON CONFLICT(identity_key) DO UPDATE SET touched_at_us
unfoldable pub upsert_pointer : Commit → List Pointer → List Pointer
upsert_pointer c [] =
    record {
      key = c.key;
      producer_sha256 = c.producer_sha256;
      output_plan_sha256 = c.output_plan_sha256;
      subject_sha256 = c.subject_sha256;
      current = none;
      touched_at_us = c.now_us;
    }
    ∷ []
upsert_pointer c (p ∷ ps) =
    let rest = upsert_pointer c ps in
    if str_eq p.key c.key then record p { touched_at_us = c.now_us } ∷ ps else p ∷ rest

-- The current instance of a key, none also without a row.
unfoldable pub current_of : String → List Pointer → Option String
current_of key [] = none
current_of key (p ∷ ps) =
    let rest = current_of key ps in if str_eq p.key key then p.current else rest

abbrev pub is_some : Option String → String → Bool
is_some none s = false
is_some (some r) s = str_eq r s

-- `require_replacement`, of the current instance
unfoldable pub require_replacement :
    Option String → Option String → String → Result CommitError (Unit {0})
require_replacement current none candidate =
    raise_if (not (is_none current) && not (is_some current candidate)) fenced
require_replacement current (some replacing) candidate =
    raise_if (not (is_some current replacing)) fenced

unfoldable pub find_body : String → String → List Body → Option Body
find_body key serial [] = none
find_body key serial (b ∷ bs) =
    let rest = find_body key serial bs in
    if is_key (b.key, b.serial) (key, serial) then some b else rest

-- "one ... instance has conflicting metadata"
abbrev pub is_conflict : Commit → Option Body → Bool
is_conflict c none = false
is_conflict c (some b) =
    not (bytes_eq b.metadata c.metadata) || not (b.content_bytes == c.content_bytes)

-- The row that the commit replaces, when it is another one.
unfoldable pub replaced_body : Commit → Option String → List Body → Option Body
unfolding find_body
replaced_body c none bs = none
replaced_body c (some replacing) bs =
    let found = find_body c.key replacing bs in if str_eq replacing c.serial then none else found

abbrev pub content_of : List Body → ℕ
content_of bs = sum_by (λ b. b.content_bytes) bs

abbrev pub metadata_of : List Body → ℕ
metadata_of bs = sum_by (λ b. b.metadata_bytes) bs

abbrev pub retired_of : List Retired → ℕ
retired_of rs = sum_by (λ r. r.content_bytes) rs

abbrev pub credit_content : Option Body → ℕ
credit_content none = 0
credit_content (some b) = b.content_bytes

abbrev pub credit_metadata : Option Body → ℕ
credit_metadata none = 0
credit_metadata (some b) = b.metadata_bytes

abbrev pub bodies_of : ArtifactKind → Tables → List Body
bodies_of generation t = t.generations
bodies_of state t = t.prepared_states

abbrev pub category_limit : ArtifactKind → AdmissionLimits → ℕ
category_limit generation limits = limits.generation_bytes
category_limit state limits = limits.prepared_state_bytes

abbrev pub total_bytes : Tables → ℕ
total_bytes t = content_of t.prepared_states + content_of t.generations + retired_of t.retired

abbrev pub total_metadata : Tables → ℕ
total_metadata t = metadata_of t.prepared_states + metadata_of t.generations

-- A row that is not there yet is admitted when it fits, less the credit, in its kind's bytes, in
-- the repository's and in the metadata's.
unfoldable pub admit_artifact :
    AdmissionLimits
    → ArtifactKind
    → Tables
    → ℕ
    → ℕ
    → Bool
    → Option Body
    → Result CommitError (Unit {0})
admit_artifact limits kind t content metadata true replaced = ok tt
admit_artifact limits kind t content metadata false replaced = do
  raise_if
      (ltb (category_limit kind limits + credit_content replaced)
        (content_of (bodies_of kind t) + content))
      over_limit
  raise_if (ltb (limits.repository_bytes + credit_content replaced) (total_bytes t + content))
      over_limit
  raise_if (ltb (limits.metadata_bytes + credit_metadata replaced) (total_metadata t + metadata))
      over_limit
  ok tt

-- The part of both commits from the pointer's check to the admission.
unfoldable pub check_slot :
    AdmissionLimits → ArtifactKind → Tables → List Pointer → Commit → Result CommitError (Unit {0})
unfolding current_of require_replacement find_body replaced_body admit_artifact
check_slot limits kind t pointers c = do
  require_replacement (current_of c.key pointers) c.replacing c.serial
  raise_if (is_conflict c (find_body c.key c.serial (bodies_of kind t))) bad_value
  admit_artifact limits kind t c.content_bytes (length c.metadata)
      (not (is_none (find_body c.key c.serial (bodies_of kind t))))
      (replaced_body c c.replacing (bodies_of kind t))

abbrev pub new_body : Commit → Body
new_body c = record {
  key = c.key;
  serial = c.serial;
  metadata = c.metadata;
  metadata_bytes = length c.metadata;
  captured = c.captured;
  content_bytes = c.content_bytes;
  created_at_us = c.now_us;
  accessed_at_us = c.now_us;
}

abbrev pub touched_body : Commit → Body → Body
touched_body c b = record b { accessed_at_us = c.now_us; captured = maximum b.captured c.captured }

-- INSERT INTO generations ... ON CONFLICT DO UPDATE SET accessed_at_us and the greater revision
unfoldable pub insert_body : Commit → List Body → List Body
insert_body c [] = new_body c ∷ []
insert_body c (b ∷ bs) =
    let rest = insert_body c bs in
    if is_key (b.key, b.serial) (c.key, c.serial) then touched_body c b ∷ bs else b ∷ rest

-- UPDATE ... SET current_instance = ?, touched_at_us = ? WHERE key
unfoldable pub point_at : Commit → List Pointer → List Pointer
unfolding update_where
point_at c ps =
    update_where (λ p. str_eq p.key c.key)
      (λ p. record p { current = some c.serial; touched_at_us = c.now_us }) ps

abbrev pub currents : List Pointer → List Key
currents [] = []
currents (p ∷ ps) =
    let rest = currents ps in elim p.current [ none ↦ rest | some serial ↦ (p.key, serial) ∷ rest ]

-- The current rows of both kinds: `current_artifacts`
abbrev pub current_artifacts : Tables → List Key × List Key
current_artifacts t = (currents t.state_scopes, currents t.identities)

abbrev pub of_fence : {A : Type 0} → Result FenceError A → Result CommitError A
of_fence (ok a) = ok a
of_fence (err fence_error) = err fenced
