-- ===== src/Repository/Retention/Sound.antt =====
-- `_make_room`, and what a state of `_retained` is to meet throughout.
use marimo_export.Prelude.{ℕ, Bool, true, ◌&&◌, Option, none, some, List, [], ◌∷◌, all, ◌≡◌, arith}
use marimo_export.Repository.Retention.{
  Key, ArtifactRow, key_of, find_row, Retained, keep_generation, keep_state, pinned, Kind, Catalog,
  Candidate, generation, state,
}
use marimo_export.Repository.Retention.Selection.{
  force_row, reserve, reserve_for, find_replaced, make_room, make_room_among, rows_of,
}
use marimo_export.Repository.Retention.Phases.{is_current, is_pin, force_row-P}
use marimo_export.Repository.Retention.Steps.{
  IsAccounted, are_pins_kept, keep-IsAccounted, keep_generation-IsAccounted,
}
use marimo_export.Repository.Retention.Pins.{keep_state-pins, keep_generation-pins}

-- Every pin and every current generation refers to a row.
abbrev pub is_linked : Catalog → Bool
is_linked c = all (is_pin c.states) c.pins && all (is_current c.generations) c.identities

-- The budgets with what admission will charge for the candidate, and nothing kept.
abbrev pub reserved : Option Candidate → Catalog → Retained → Retained
reserved none c r = r
reserved (some x) c r =
    reserve_for x (find_row (x.key, x.serial) (rows_of x.kind c))
      (find_replaced x.key x.replacing (rows_of x.kind c)) r

reserve-IsAccounted :
    (kind : Kind) (m n m' n' : ℕ) (base r : Retained)
    → IsAccounted base r
    → IsAccounted (reserve kind m n m' n' base) (reserve kind m n m' n' r)
unfolding reserve
reserve-IsAccounted generation m n m' n' base r h = record {
  metadata_credit = omega (arith, h.metadata_credit);
  state_credit = h.state_credit;
  generation_credit = omega (arith, h.generation_credit);
  metadata_debit = omega (arith, h.metadata_debit);
  state_debit = h.state_debit;
  generation_debit = omega (arith, h.generation_debit);
}
reserve-IsAccounted state m n m' n' base r h = record {
  metadata_credit = omega (arith, h.metadata_credit);
  state_credit = omega (arith, h.state_credit);
  generation_credit = h.generation_credit;
  metadata_debit = omega (arith, h.metadata_debit);
  state_debit = omega (arith, h.state_debit);
  generation_debit = h.generation_debit;
}

reserve_for-IsAccounted :
    (x : Candidate) (o o' : Option ArtifactRow) (base r : Retained)
    → IsAccounted base r
    → IsAccounted (reserve_for x o o' base) (reserve_for x o o' r)
unfolding reserve_for
reserve_for-IsAccounted x (some e) o' base r h = h
reserve_for-IsAccounted x none none base r h =
    reserve-IsAccounted x.kind x.metadata_bytes x.content_bytes 0 0 base r h
reserve_for-IsAccounted x none (some old) base r h =
    reserve-IsAccounted x.kind x.metadata_bytes x.content_bytes old.metadata_bytes old.content_bytes
      base r h

reserve-pins :
    (pins : List (Key × ArtifactRow)) (kind : Kind) (m n m' n' : ℕ) (r : Retained)
    → are_pins_kept pins r ≡ true
    → are_pins_kept pins (reserve kind m n m' n' r) ≡ true
unfolding reserve
reserve-pins pins generation m n m' n' r h = h
reserve-pins pins state m n m' n' r h = h

reserve_for-pins :
    (pins : List (Key × ArtifactRow)) (x : Candidate) (o o' : Option ArtifactRow) (r : Retained)
    → are_pins_kept pins r ≡ true
    → are_pins_kept pins (reserve_for x o o' r) ≡ true
unfolding reserve_for
reserve_for-pins pins x (some e) o' r h = h
reserve_for-pins pins x none none r h =
    reserve-pins pins x.kind x.metadata_bytes x.content_bytes 0 0 r h
reserve_for-pins pins x none (some old) r h =
    reserve-pins pins x.kind x.metadata_bytes x.content_bytes old.metadata_bytes old.content_bytes r
      h

module _ (pins : List (Key × ArtifactRow)) where
  -- The bytes of what is kept are in the books, and so are the states that it pins.
  pub record IsKept (base r : Retained) : Type 0 where
    pub accounted : IsAccounted base r
    pub pins_kept : are_pins_kept pins r ≡ true

  pub step_generation :
      (base : Retained) (force : Bool) (row : ArtifactRow) (r : Retained)
      → IsKept base r
      → IsKept base (keep_generation row (pinned pins (key_of row)) force r).1
  step_generation base force row r h = record {
    accounted = keep_generation-IsAccounted base row (pinned pins (key_of row)) force r h.accounted;
    pins_kept = keep_generation-pins pins row force r h.pins_kept;
  }

  pub step_state :
      (base : Retained) (force : Bool) (row : ArtifactRow) (r : Retained)
      → IsKept base r
      → IsKept base (keep_state row force r).1
  step_state base force row r h = record {
    accounted = keep-IsAccounted base [] (row ∷ []) force r h.accounted;
    pins_kept = keep_state-pins pins row force r h.pins_kept;
  }

  pub make_room-IsKept :
      (candidate : Option Candidate) (c : Catalog) (base : Retained)
      → IsKept base base
      → IsKept (reserved candidate c base) (make_room pins candidate c base)
  unfolding make_room make_room_among
  make_room-IsKept none c base h = h
  make_room-IsKept (some x) c base h =
      let rows = rows_of x.kind c in
      let existing = find_row (x.key, x.serial) rows in
      let old = find_replaced x.key x.replacing rows in
      let force =
        force_row-P pins (IsKept base) (step_generation base true) (step_state base true) in
      let forced =
        force x.kind old (force_row pins x.kind existing base) (force x.kind existing base h) in
      record {
        accounted = reserve_for-IsAccounted x existing old base _ forced.accounted;
        pins_kept = reserve_for-pins pins x existing old _ forced.pins_kept;
      }
