-- ===== src/Json/Counted.antt =====
-- The stack of `json_value_count` counts every value and object key, and it ends.
use marimo_export.Prelude.{ℕ, zero, suc, List, [], ◌∷◌, some, ◌≡◌, arith, ◌+◌, ◌<◌, sum_by}
use mathlib.Core.Path.{ap, ◌∙◌}
use marimo_export.Json.Values.{
  Value, null, boolean, text, number, array, object, other, Items, no_items, item, Fields,
  no_fields, field, key_count, push_items, push_fields, keys_in, push_children, count_loop,
  json_value_count,
}
use marimo_export.Json.Measures.{size, size_items, size_fields}

sum-push_items :
    (xs : Items) (pending : List Value)
    → sum_by size (push_items xs pending) ≡ size_items xs + sum_by size pending
unfolding size
sum-push_items no_items pending = omega arith
sum-push_items (item x xs) pending = omega (arith, sum-push_items xs (x ∷ pending))

sum-push_fields :
    (fs : Fields) (pending : List Value)
    → sum_by size (push_fields fs pending) + key_count fs ≡ size_fields fs + sum_by size pending
unfolding size
sum-push_fields no_fields pending = omega arith
sum-push_fields (field k x fs) pending = omega (arith, sum-push_fields fs (x ∷ pending))

sum-push_children :
    (v : Value) (pending : List Value)
    → 1 + keys_in v + sum_by size (push_children v pending) ≡ size v + sum_by size pending
unfolding size
sum-push_children null pending = omega arith
sum-push_children (boolean b) pending = omega arith
sum-push_children (text t) pending = omega arith
sum-push_children (number n) pending = omega arith
sum-push_children (array xs) pending = omega (arith, sum-push_items xs pending)
sum-push_children (object fs) pending = omega (arith, sum-push_fields fs pending)
sum-push_children other pending = omega arith

count_loop_lem :
    (fuel count : ℕ) (pending : List Value)
    → sum_by size pending < fuel
    → count_loop fuel count pending ≡ some (count + sum_by size pending)
unfolding count_loop
count_loop_lem zero count pending h = absurd (omega arith)
count_loop_lem (suc fuel) count [] h = ap some (omega arith)
count_loop_lem (suc fuel) count (v ∷ pending) h =
    count_loop_lem fuel (count + 1 + keys_in v) (push_children v pending)
      (omega (arith, sum-push_children v pending, h))
    ∙ ap some (omega (arith, sum-push_children v pending))

-- The stack of json_value_count ends on every fuel above the number of the values and object
-- keys, and that number is what it returns.
pub json_value_count_lem :
    (fuel : ℕ) (v : Value) → size v < fuel → json_value_count fuel v ≡ some (size v)
unfolding json_value_count
json_value_count_lem fuel v h = count_loop_lem fuel 0 (v ∷ []) (omega arith) ∙ ap some (omega arith)
