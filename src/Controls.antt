-- ===== src/Controls.antt =====
-- `_control_roots.py`: which UI definition owns each control that the notebook infers.
pub mod Aliases
pub mod Select
pub mod Paths
pub mod Closure
pub mod Order
pub mod Acyclic
pub mod Subsets
pub mod Sorted
pub mod Keys
pub mod Owners
pub mod Groups
pub mod Unique
pub mod Dependencies
pub mod Selected
use marimo_export.Prelude.{
  ℕ, zero, suc, Bool, true, false, ◌&&◌, ◌||◌, not, List, [], ◌∷◌, Option, none, some, length, any,
  all, sum_by, bytes_eq, ltb, leb, ◌==◌, arith, if◌then◌else◌, Result, ok, err, ◌>>=◌, ◌>>◌,
  raise_if,
}
use mathlib.Core.List.{map}
use marimo_export.Format.Names.{utf8_bytes}
use marimo_export.Format.Texts.{
  Text, is_in, is_strict, is_same, overlaps, meet, minus, text_lt, least, sorted_set,
}

pub data RootError : Type 0 where
  bad_name : RootError
  bad_controls : RootError
  bad_dependencies : RootError
  duplicated : Text → RootError
  cycle : RootError
  unavailable : List Text → RootError
  overlap : Text → Text → RootError
  -- `dependencies[name]` where there is no such name
  key_error : Text → RootError
  -- The fuel has ended, which is no outcome of the source.
  out_of_fuel : RootError

-- `ControlRootCandidate`
pub record Candidate : Type 0 where
  pub name : Text
  pub control_ids : List Text
  pub input_dependencies : List Text
  pub eligible : Bool

abbrev pub name_of : Candidate → Text
name_of c = c.name

abbrev pub ids_of : Candidate → List Text
ids_of c = c.control_ids

abbrev pub max_name_bytes : ℕ
max_name_bytes = 255

abbrev pub max_control_id_bytes : ℕ
max_control_id_bytes = 1024

abbrev pub texts_eq : List Text → List Text → Bool
texts_eq [] [] = true
texts_eq (x ∷ xs) (y ∷ ys) = bytes_eq x y && texts_eq xs ys
texts_eq _ _ = false

-- Python's own test of an identifier that is no keyword
module _ (is_identifier : Text → Bool) where
  unfoldable pub is_input_name : Text → Bool
  is_input_name name = is_identifier name && leb (sum_by utf8_bytes name) max_name_bytes

  unfoldable pub is_control_id : Text → Bool
  is_control_id text = not (length text == 0) && leb (sum_by utf8_bytes text) max_control_id_bytes

  unfoldable pub check_candidate : Candidate → Result RootError Unit
  unfolding is_input_name is_control_id
  check_candidate c =
      raise_if (not (is_input_name c.name)) bad_name
      >> raise_if
          (not (texts_eq c.control_ids (sorted_set c.control_ids))
            || any (λ x. not (is_control_id x)) c.control_ids)
          bad_controls
      >> raise_if
          (not (texts_eq c.input_dependencies (sorted_set c.input_dependencies))
            || any (λ x. not (is_input_name x)) c.input_dependencies)
          bad_dependencies

-- `dependencies`: the names in the order of the dict, each with its set.
abbrev pub Edges : Type 0
Edges = List (Text × List Text)

abbrev pub names : Edges → List Text
names [] = []
names ((name, deps) ∷ rest) = name ∷ names rest

unfoldable pub deps_of : Edges → Text → Result RootError (List Text)
deps_of [] name = err (key_error name)
deps_of ((key, deps) ∷ rest) name =
    let later = deps_of rest name in if bytes_eq name key then ok deps else later

-- `result.add` and `pending.append` of each element in turn: the newest first
abbrev pub extend : List Text → List Text → List Text
extend [] xs = xs
extend (y ∷ ys) xs = extend ys (y ∷ xs)

-- `_dependency_closure`'s loop; `pending` is a stack with its top first.
unfoldable pub close_loop : ℕ → Edges → List Text → List Text → Result RootError (List Text)
close_loop zero edges result pending = err out_of_fuel
close_loop (suc n) edges result [] = ok result
close_loop (suc n) edges result (name ∷ pending) = deps_of edges name >>= λ deps.
    close_loop n edges (extend (minus deps result) result) (extend (minus deps result) pending)

unfoldable pub dependency_closure : List Text → Edges → Result RootError (List Text)
unfolding close_loop
dependency_closure selected edges = close_loop (suc (length edges)) edges selected selected

-- `for dependency in ...: visit(dependency)`, over the set that the visits leave.
abbrev pub visit_each :
    (List Text → Text → Result RootError (List Text))
    → List Text
    → List Text
    → Result RootError (List Text)
visit_each visit visited [] = ok visited
visit_each visit visited (x ∷ xs) = visit visited x >>= λ after. visit_each visit after xs

-- `visit`: `visited` is passed on; `active` is as it was once a visit has ended.
unfoldable pub visit : ℕ → Edges → List Text → List Text → Text → Result RootError (List Text)
visit zero edges active visited name = err out_of_fuel
visit (suc n) edges active visited name =
    let inside = deps_of edges name >>= λ deps.
    visit_each (visit n edges (name ∷ active)) visited deps >>= λ after. ok (name ∷ after) in
    if is_in name active then err cycle else if is_in name visited then ok visited else inside

unfoldable pub validate_acyclic : Edges → Result RootError (List Text)
unfolding visit
validate_acyclic edges = visit_each (visit (suc (length edges)) edges []) [] (names edges)
