-- ===== src/Repository/Retention.antt =====
-- What _repository/sqlite/retention.py keeps of the prepared states and the generations. The
-- answers of its queries are given: a `Catalog` holds them, each in its query's order. A budget
-- that may go below zero is written as a credit and a debit.
pub mod Selection
pub mod Phases
pub mod Steps
pub mod Pins
pub mod Leased
pub mod Sound
pub mod Selected
pub mod Victims
pub mod Apply
pub mod Applied
use marimo_export.Prelude.{
  ℕ, zero, ◌+◌, String, str_eq, Bool, true, false, ◌&&◌, ◌||◌, not, Option, none, some, is_none,
  List, [], ◌∷◌, ◌++◌, length, any, all, sum_by, ltb, leb, ◌==◌, if◌then◌else◌, Result, ok, err,
  ◌>>=◌,
}

abbrev pub Key : Type 0
Key = String × String

-- A row of either kind; `others` stands for the columns that retention only compares.
pub record ArtifactRow : Type 0 where
  pub key : String
  pub serial : String
  pub metadata_bytes : ℕ
  pub content_bytes : ℕ
  pub others : String

abbrev pub key_of : ArtifactRow → Key
key_of r = (r.key, r.serial)

unfoldable pub is_key : Key → Key → Bool
is_key (a, b) (c, d) = str_eq a c && str_eq b d

abbrev pub has : Key → List ArtifactRow → Bool
has k rows = any (λ r. is_key (key_of r) k) rows

-- A dictionary of the rows: where two have one key, the last is found.
unfoldable pub find_row : Key → List ArtifactRow → Option ArtifactRow
find_row k [] = none
find_row k (r ∷ rs) = elim (find_row k rs) [
  | some found ↦ some found
  | none ↦ if is_key (key_of r) k then some r else none
]

-- `credit - debit`
pub record Balance : Type 0 where
  pub credit : ℕ
  pub debit : ℕ

-- `amount > balance`
abbrev pub exceeds : ℕ → Balance → Bool
exceeds amount b = ltb b.credit (b.debit + amount)

-- `balance -= charged - refunded`
abbrev pub charge : ℕ → ℕ → Balance → Balance
charge charged refunded b = record { credit = b.credit + refunded; debit = b.debit + charged }

-- `_Retained`; a kept key stands with its row.
pub record Retained : Type 0 where
  pub metadata_left : Balance
  pub state_left : Balance
  pub generation_left : Balance
  pub generations : List ArtifactRow
  pub states : List ArtifactRow

abbrev pub metadata_of : List ArtifactRow → ℕ
metadata_of rows = sum_by (λ r. r.metadata_bytes) rows

abbrev pub content_of : List ArtifactRow → ℕ
content_of rows = sum_by (λ r. r.content_bytes) rows

-- The rows of the first list that the second does not have.
unfoldable pub not_kept : List ArtifactRow → List ArtifactRow → List ArtifactRow
not_kept [] kept = []
not_kept (r ∷ rs) kept =
    let rest = not_kept rs kept in if has (key_of r) kept then rest else r ∷ rest

abbrev pub is_over : ℕ → ℕ → ℕ → Retained → Bool
is_over metadata states generations r =
    exceeds metadata r.metadata_left
    || exceeds states r.state_left
    || exceeds generations r.generation_left

unfoldable pub keep_added : List ArtifactRow → List ArtifactRow → Bool → Retained → Bool × Retained
keep_added rows added force r =
    if not force
      && is_over (metadata_of rows + metadata_of added) (content_of added) (content_of rows) r
    then (false, r)
    else (
      true,
      record {
        metadata_left = charge (metadata_of rows + metadata_of added) 0 r.metadata_left;
        state_left = charge (content_of added) 0 r.state_left;
        generation_left = charge (content_of rows) 0 r.generation_left;
        generations = rows ++ r.generations;
        states = added ++ r.states;
      },
    )

-- `_keep`
unfoldable pub keep : List ArtifactRow → List ArtifactRow → Bool → Retained → Bool × Retained
unfolding not_kept keep_added
keep rows states force r = keep_added rows (not_kept states r.states) force r

unfoldable pub keep_generation : ArtifactRow → List ArtifactRow → Bool → Retained → Bool × Retained
unfolding keep
keep_generation row pinned force r =
    if has (key_of row) r.generations then (true, r) else keep (row ∷ []) pinned force r

abbrev pub keep_state : ArtifactRow → Bool → Retained → Bool × Retained
keep_state row force r = keep [] (row ∷ []) force r

pub data Kind : Type 0 where
  generation state : Kind

pub record Lease : Type 0 where
  pub kind : Kind
  pub artifact : Key

pub record Identity : Type 0 where
  pub identity_key : String
  pub producer_sha256 : String
  pub current : Option String

pub record Candidate : Type 0 where
  pub kind : Kind
  pub key : String
  pub serial : String
  pub replacing : Option String
  pub metadata_bytes : ℕ
  pub content_bytes : ℕ

pub record RetentionLimits : Type 0 where
  pub metadata_bytes : ℕ
  pub prepared_state_bytes : ℕ
  pub generation_bytes : ℕ
  pub retained_identities : ℕ
  pub retained_generations : ℕ
  pub retained_generations_per_identity : ℕ
  pub retained_prepared_states : ℕ

pub record Catalog : Type 0 where
  pub generations : List ArtifactRow
  pub states : List ArtifactRow
  pub pins : List (Key × Key)
  pub leases : List Lease
  pub identities : List Identity
  pub preparing : List String

pub data RetentionError : Type 0 where
  key_error : RetentionError

unfoldable pub join_pin :
    Key
    → Option ArtifactRow
    → Result RetentionError (List (Key × ArtifactRow))
    → Result RetentionError (List (Key × ArtifactRow))
join_pin g none rest = err key_error
join_pin g (some row) (err e) = err e
join_pin g (some row) (ok rest) = ok ((g, row) ∷ rest)

-- The states that each generation pins, as a list of pairs.
unfoldable pub join_pins :
    List (Key × Key) → List ArtifactRow → Result RetentionError (List (Key × ArtifactRow))
unfolding find_row join_pin
join_pins [] rows = ok []
join_pins ((g, s) ∷ pins) rows = join_pin g (find_row s rows) (join_pins pins rows)

unfoldable pub pinned : List (Key × ArtifactRow) → Key → List ArtifactRow
pinned [] k = []
pinned ((g, row) ∷ pins) k = let rest = pinned pins k in if is_key g k then row ∷ rest else rest

abbrev pub fresh : RetentionLimits → Retained
fresh limits = record {
  metadata_left = record { credit = limits.metadata_bytes; debit = 0 };
  state_left = record { credit = limits.prepared_state_bytes; debit = 0 };
  generation_left = record { credit = limits.generation_bytes; debit = 0 };
  generations = [];
  states = [];
}
