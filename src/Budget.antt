-- ===== src/Budget.antt =====
-- `_index_budget.py`: the fewest values and bytes that an export index can hold. A cost is never
-- taken away from a smaller one, so that its numbers are natural ones. The values are those that
-- `canonical_bytes` accepts: its errors, and with them those of `_cost`, are not modelled.
pub mod Projected
pub mod Objects
use marimo_export.Prelude.{
  ℕ, Bool, true, false, ◌&&◌, List, [], ◌∷◌, Option, none, some, length, sum_by, ltb, bytes_eq,
  if◌then◌else◌, Result, ok, err, ◌>>◌, raise_if, ◌+◌, ◌-◌, ◌*◌, ◌/◌,
}
use marimo_export.Format.Names.{utf8_bytes}
use marimo_export.Format.Texts.{Text, is_in}
use marimo_export.Json.Values.{Number, Value}
use marimo_export.Json.Measures.{size}
use marimo_export.Json.Canonical.{dumps, write_canonical}

-- `_Cost`
pub record Cost : Type 0 where
  pub values : ℕ
  pub bytes : ℕ

abbrev pub cost_of : ℕ → ℕ → Cost
cost_of values bytes = record { values = values; bytes = bytes }

abbrev pub plus : Cost → Cost → Cost
plus a b = cost_of (a.values + b.values) (a.bytes + b.bytes)

abbrev pub minus : Cost → Cost → Cost
minus a b = cost_of (a.values - b.values) (a.bytes - b.bytes)

abbrev pub empty_object : Cost
empty_object = cost_of 1 2

-- The sum of the loop in `_object`.
abbrev pub total : List Cost → Cost
total [] = cost_of 0 0
total (c ∷ cs) = plus c (total cs)

-- `_object`
abbrev pub object_cost : List Cost → Cost
object_cost members = plus (plus empty_object (total members)) (cost_of 0 (length members - 1))

pub record IndexBudget : Type 0 where
  pub index_values : ℕ
  pub max_index_values : ℕ
  pub index_bytes : ℕ
  pub max_index_bytes : ℕ

abbrev pub max_index_bytes_limit : ℕ
max_index_bytes_limit = 16777216

abbrev pub max_index_values_limit : ℕ
max_index_values_limit = 2000000

pub data BudgetError : Type 0 where
  too_many_values : IndexBudget → Option ℕ → BudgetError
  too_many_bytes : IndexBudget → Option ℕ → BudgetError

-- `IndexProjection`
pub record Projection : Type 0 where
  pub skeleton : Cost
  pub minimal_outputs : Cost
  pub entries : List (Text × Cost)
  pub members : Cost

unfoldable pub find_entry : Text → List (Text × Cost) → Option Cost
find_entry key [] = none
find_entry key ((k, c) ∷ rest) =
    let later = find_entry key rest in if bytes_eq key k then some c else later

-- `self._entries[key] = entry`
unfoldable pub put_entry : Text → Cost → List (Text × Cost) → List (Text × Cost)
put_entry key c [] = (key, c) ∷ []
put_entry key c ((k, d) ∷ rest) =
    let later = put_entry key c rest in if bytes_eq key k then (k, c) ∷ rest else (k, d) ∷ later

-- `min(...)` of two numbers
abbrev pub smaller : ℕ → ℕ → ℕ
smaller a b = if ltb b a then b else a

-- `_reduction`: how many states to keep, if its message names a number.
abbrev pub reduction : ℕ → IndexBudget → Option ℕ
reduction states b =
    let keep =
      smaller (states * b.max_index_values / b.index_values)
        (states * b.max_index_bytes / b.index_bytes) in
    if ltb 0 keep && ltb keep states then some keep else none

-- The bytes of the digest as a key, in quotes: `len(canonical_bytes(_DIGEST))`
abbrev pub digest_bytes : ℕ
digest_bytes = 66

-- `_member(_DIGEST, ...)`
abbrev pub digest_member : Cost → Cost
digest_member c = cost_of (1 + c.values) (digest_bytes + 1 + c.bytes)

abbrev pub without : Option Cost → Cost → Cost
without none members = members
without (some previous) members = minus members (digest_member previous)

-- `_set`
unfoldable pub set_entry : Text → Cost → Projection → Projection
unfolding find_entry put_entry
set_entry key c p = record p {
  entries = put_entry key c p.entries;
  members = plus (without (find_entry key p.entries) p.members) (digest_member c);
}

unfoldable pub set_each : List (Text × Cost) → Projection → Projection
unfolding set_entry
set_each [] p = p
set_each ((key, c) ∷ rest) p = set_each rest (set_entry key c p)

abbrev pub budget_total : Projection → Cost
budget_total p = plus (plus p.skeleton p.members) (cost_of 0 (length p.entries - 1))

unfoldable pub budget : Projection → IndexBudget
budget p = record {
  index_values = (budget_total p).values;
  max_index_values = max_index_values_limit;
  index_bytes = (budget_total p).bytes;
  max_index_bytes = max_index_bytes_limit;
}

unfoldable pub require_fits : Projection → Result BudgetError Unit
unfolding budget
require_fits p =
    let b = budget p in
    raise_if (ltb b.max_index_values b.index_values)
      (too_many_values b (reduction (length p.entries) b))
    >> raise_if (ltb b.max_index_bytes b.index_bytes)
        (too_many_bytes b (reduction (length p.entries) b))

module _ (quoted : Text → Text) (number_text : Number → Text) where
  -- `_cost`; the count is that of `json_value_count`.
  unfoldable pub cost : Value → Cost
  cost v = cost_of (size v) (sum_by utf8_bytes (write_canonical quoted number_text v))

  -- `_member`
  unfoldable pub member : Text → Cost → Cost
  member key c =
      cost_of (1 + c.values) (sum_by utf8_bytes (dumps quoted number_text key) + 1 + c.bytes)

  unfoldable pub outputs_cost : (Bool → Cost) → List Text → List Text → List Cost
  unfolding member
  outputs_cost minimal optional [] = []
  outputs_cost minimal optional (name ∷ names) =
      member name (minimal (is_in name optional)) ∷ outputs_cost minimal optional names

-- `_minimal_outputs`, of the costs of the outputs
abbrev pub minimal_of : List Cost → Cost
minimal_of outputs = minus (object_cost outputs) empty_object

-- `_minimal_entry` of each state, of its cost without outputs
abbrev pub minimal_entries : Cost → List (Text × Cost) → List (Text × Cost)
minimal_entries minimal [] = []
minimal_entries minimal ((key, c) ∷ rest) = (key, plus c minimal) ∷ minimal_entries minimal rest

abbrev pub empty_projection : Cost → List Cost → Projection
empty_projection skeleton outputs = record {
  skeleton = skeleton;
  minimal_outputs = minimal_of outputs;
  entries = [];
  members = cost_of 0 0;
}

-- `__init__`: the skeleton, the state entries without their outputs, and the outputs are given by
-- their costs.
unfoldable pub projection : Cost → List Cost → List (Text × Cost) → Projection
unfolding set_each
projection skeleton outputs states =
    set_each (minimal_entries (minimal_of outputs) states) (empty_projection skeleton outputs)
