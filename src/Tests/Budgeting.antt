-- ===== src/Tests/Budgeting.antt =====
-- Two states of which one has been measured, and an object with two members.
use marimo_export.Prelude.{List, [], ◌∷◌, ◌++◌, some, true, ◌≡◌, ◌↔◌, refl, ok, err}
use marimo_export.Format.{codes}
use marimo_export.Format.Texts.{Text}
use marimo_export.Json.Values.{Number, boolean, null, Fields, field, no_fields, object}
use marimo_export.Budget.{
  Cost, cost_of, object_cost, find_entry, set_each, projection, require_fits, too_many_bytes,
  budget, cost,
}
use marimo_export.Budget.Projected.{IsWithin, latest_of, require_fits_lem}
use marimo_export.Budget.Objects.{field_members, object_cost_lem}

abbrev states : List (Text × Cost)
states = (codes "s1", cost_of 4 20) ∷ (codes "s2", cost_of 4 21) ∷ []

abbrev measured : List (Text × Cost)
measured = (codes "s1", cost_of 90 16777000) ∷ []

abbrev outputs : List Cost
outputs = cost_of 5 60 ∷ []

-- Of two states one is kept.
too_long :
    require_fits (set_each measured (projection (cost_of 30 400) outputs states))
    ≡ err (
        too_many_bytes
          (budget (set_each measured (projection (cost_of 30 400) outputs states)))
          (some 1))
unfolding require_fits set_each projection find_entry
too_long = refl

require_fits_lem_example :
    ((require_fits (set_each measured (projection (cost_of 30 400) outputs states)) ≡ ok tt)
      ↔ IsWithin (cost_of 30 400) (set_each measured (projection (cost_of 30 400) outputs states)))
    × ((k : Text)
        → find_entry k (set_each measured (projection (cost_of 30 400) outputs states)).entries
          ≡ latest_of k measured
              (find_entry k (projection (cost_of 30 400) outputs states).entries))
require_fits_lem_example = require_fits_lem (cost_of 30 400) outputs states measured

abbrev quoted : Text → Text
quoted t = t ++ (b'"' ∷ [])

abbrev number_text : Number → Text
number_text n = b'0' ∷ []

abbrev fields : Fields
fields = field (some (codes "b")) null (field (some (codes "a")) (boolean true) no_fields)

object_cost_lem_example :
    ((cost quoted number_text (object fields)).values
      ≡ (object_cost (field_members quoted number_text fields)).values)
    × ((cost quoted number_text (object fields)).bytes
        ≡ (object_cost (field_members quoted number_text fields)).bytes)
object_cost_lem_example = object_cost_lem quoted number_text fields
