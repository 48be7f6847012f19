-- ===== src/Repository/Observations.antt =====
-- The observation tables of _repository/sqlite/observations.py. A table is the list of its rows,
-- in the order of insertion; a transaction that raises is rolled back, so an error has no new
-- database. The statements are read by SQL's documented meaning.
pub mod Pruned
mod Inserted
pub mod Revisions
use Prim.Native.String.{compare}
use text.Mathlib.Text.{is_lt}
use marimo_export.Prelude.{
  ℕ, zero, ◌+◌, ◌-◌, ◌^◌, String, str_eq, Bool, true, false, ◌&&◌, ◌||◌, not, Option, none, some,
  List, [], ◌∷◌, ◌++◌, length, any, sum_by, ltb, leb, ◌==◌, if◌then◌else◌, Result, ok, err, ◌>>=◌,
  ◌>>◌, raise_if,
}

abbrev pub max_sqlite_integer : ℕ
max_sqlite_integer = 2 ^ 63 - 1

-- `ValueError` on overflow and on an argument, `RepositoryError` on a corrupt revision,
-- `RepositoryLimitError` on a vector over the byte limit, `sqlite3.IntegrityError` on a row that
-- breaks a constraint of the schema.
pub data DbError : Type 0 where
  overflow bad_argument corrupt over_limit integrity : DbError

pub record Limits : Type 0 where
  pub observation_bytes : ℕ
  pub observations_per_producer : ℕ
  pub observation_relation_bytes : ℕ

pub record ProducerRow : Type 0 where
  pub producer_sha256 : String
  pub observation_revision : ℕ
  pub touched_at_us : ℕ

-- A row of `observations` or of `observation_events`.
pub record Row : Type 0 where
  pub rowid : ℕ
  pub producer_sha256 : String
  pub fingerprint : String
  pub input_names : List ℕ
  pub values_json : List ℕ
  pub byte_count : ℕ
  pub observed_order : ℕ

pub record Db : Type 0 where
  pub producers : List ProducerRow
  pub observations : List Row
  pub observation_events : List Row

-- INSERT INTO producers ... ON CONFLICT(producer_sha256) DO UPDATE SET touched_at_us
unfoldable pub touch : String → ℕ → List ProducerRow → List ProducerRow
touch p now [] = record { producer_sha256 = p; observation_revision = 0; touched_at_us = now } ∷ []
touch p now (r ∷ rs) =
    if str_eq r.producer_sha256 p then record r { touched_at_us = now } ∷ rs else r ∷ touch p now rs

abbrev pub touch_producer : String → ℕ → Db → Db
touch_producer p now db = record db { producers = touch p now db.producers }

-- The column of the producer's row, 0 without a row.
unfoldable pub stored_revision : String → List ProducerRow → ℕ
stored_revision p [] = 0
stored_revision p (r ∷ rs) =
    if str_eq r.producer_sha256 p then r.observation_revision else stored_revision p rs

unfoldable pub observation_revision : Db → String → Result DbError ℕ
observation_revision db p =
    let value = stored_revision p db.producers in
    if ltb max_sqlite_integer value then err corrupt else ok value

-- UPDATE producers SET observation_revision = ? WHERE producer_sha256 = ?
unfoldable pub set_revision : String → ℕ → List ProducerRow → List ProducerRow
set_revision p n [] = []
set_revision p n (r ∷ rs) =
    let rest = set_revision p n rs in
    if str_eq r.producer_sha256 p then record r { observation_revision = n } ∷ rest else r ∷ rest

-- The row identifier of a new row: one more than the greatest.
unfoldable pub next_rowid : List Row → ℕ
next_rowid [] = 1
next_rowid (r ∷ rs) = let n = next_rowid rs in if ltb r.rowid n then n else r.rowid + 1

abbrev pub is_same_key : Row → Row → Bool
is_same_key a b = str_eq a.producer_sha256 b.producer_sha256 && str_eq a.fingerprint b.fingerprint

-- INSERT INTO observations ... ON CONFLICT(producer_sha256, fingerprint) DO UPDATE SET ...
unfoldable pub upsert : Row → List Row → List Row
upsert new [] = new ∷ []
upsert new (r ∷ rs) =
    if is_same_key r new
    then record r {
      input_names = new.input_names;
      values_json = new.values_json;
      byte_count = new.byte_count;
      observed_order = new.observed_order;
    }
      ∷ rs
    else r ∷ upsert new rs

-- ORDER BY observed_order DESC, fingerprint DESC
unfoldable pub is_before : Row → Row → Bool
is_before a b =
    ltb b.observed_order a.observed_order
    || (a.observed_order == b.observed_order && is_lt (compare b.fingerprint a.fingerprint))

unfoldable pub place : Row → List Row → List Row
place r [] = r ∷ []
place r (s ∷ ss) = if is_before s r then s ∷ place r ss else r ∷ s ∷ ss

-- SELECT ... WHERE producer_sha256 = ? ORDER BY ...
unfoldable pub ordered : String → List Row → List Row
unfolding place is_before
ordered p [] = []
ordered p (r ∷ rs) =
    let rest = ordered p rs in if str_eq r.producer_sha256 p then place r rest else rest

-- The loop of `_prune_observation_table`: the row identifiers of its victims.
unfoldable pub victims_from : Limits → ℕ → ℕ → List Row → List ℕ
victims_from limits index kept_bytes [] = []
victims_from limits index kept_bytes (r ∷ rs) =
    let drop = r.rowid ∷ victims_from limits (index + 1) kept_bytes rs in
    let keep = victims_from limits (index + 1) (kept_bytes + r.byte_count) rs in
    if leb limits.observations_per_producer index
      || ltb limits.observation_relation_bytes (kept_bytes + r.byte_count)
    then drop
    else keep

abbrev pub is_victim : List ℕ → Row → Bool
is_victim ids r = any (λ i. i == r.rowid) ids

-- DELETE ... WHERE rowid = ?, for each victim
unfoldable pub delete_rows : List ℕ → List Row → List Row
delete_rows ids [] = []
delete_rows ids (r ∷ rs) =
    let rest = delete_rows ids rs in if is_victim ids r then rest else r ∷ rest

unfoldable pub prune_observation_table : String → Limits → List Row → List Row
unfolding victims_from ordered delete_rows
prune_observation_table p limits rows = delete_rows (victims_from limits 0 0 (ordered p rows)) rows

-- The producer touched, and its revision advanced.
unfoldable pub advance : Db → String → ℕ → ℕ → Result DbError (Db × ℕ)
unfolding touch observation_revision set_revision
advance db p occurrences now = do
  let touched = touch_producer p now db
  current ← observation_revision touched p
  raise_if (ltb (max_sqlite_integer - current) occurrences) overflow
  ok (
    record touched { producers = set_revision p (current + occurrences) touched.producers },
    current + occurrences,
  )

-- Both tables with the recorded vector, pruned.
unfoldable pub insert_rows : String → String → List ℕ → List ℕ → ℕ → Limits → Db → Db
unfolding upsert next_rowid prune_observation_table
insert_rows p fingerprint input_names values revision limits db =
    let row : ℕ → Row = λ id. record {
      rowid = id;
      producer_sha256 = p;
      fingerprint = fingerprint;
      input_names = input_names;
      values_json = values;
      byte_count = length values;
      observed_order = revision;
    } in
    record db {
      observations =
          prune_observation_table p limits
            (upsert (row (next_rowid db.observations)) db.observations);
      observation_events =
          prune_observation_table p limits
            (db.observation_events ++ row (next_rowid db.observation_events) ∷ []);
    }

-- The primary key of `observation_events`.
abbrev pub has_event : String → ℕ → List Row → Bool
has_event p order rs = any (λ r. str_eq r.producer_sha256 p && (r.observed_order == order)) rs

-- The two inserts of a recorded vector, under CHECK (observed_order >= 1) of both tables and the
-- primary key of the second, and the pruning of both tables.
unfoldable pub insert_observation :
    String → String → List ℕ → List ℕ → ℕ → Limits → Db → Result DbError Db
unfolding insert_rows
insert_observation p fingerprint input_names values revision limits db =
    if revision == 0 || has_event p revision db.observation_events
    then err integrity
    else ok (insert_rows p fingerprint input_names values revision limits db)

unfoldable pub record_observation :
    Db → String → String → List ℕ → List ℕ → ℕ → ℕ → Limits → Result DbError (Db × ℕ)
unfolding advance insert_observation
record_observation db p fingerprint input_names values occurrences now limits = do
  (db', revision) ← advance db p occurrences now
  db'' ← insert_observation p fingerprint input_names values revision limits db'
  ok (db'', revision)

-- DELETE ... WHERE producer_sha256 = ?
unfoldable pub without_producer : String → List Row → List Row
without_producer p [] = []
without_producer p (r ∷ rs) =
    let rest = without_producer p rs in if str_eq r.producer_sha256 p then rest else r ∷ rest

unfoldable pub clear_observations : Db → String → Db × ℕ
unfolding without_producer
clear_observations db p = (
  record db {
    observations = without_producer p db.observations;
    observation_events = without_producer p db.observation_events;
  },
  sum_by (λ r. if str_eq r.producer_sha256 p then 1 else 0) db.observations,
)
