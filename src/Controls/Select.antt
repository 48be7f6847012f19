-- ===== src/Controls/Select.antt =====
-- `select_control_roots` of `_control_roots.py`.
use marimo_export.Prelude.{
  Bool, ◌&&◌, not, List, [], ◌∷◌, Option, none, some, length, any, bytes_eq, ltb, if◌then◌else◌,
  Result, ok, ◌>>=◌, ◌>>◌, raise_if,
}
use marimo_export.Format.Texts.{Text, is_in, overlaps, meet, minus, sorted_set}
use marimo_export.Controls.{
  Candidate, RootError, duplicated, unavailable, Edges, validate_acyclic, dependency_closure,
}
use marimo_export.Controls.Aliases.{Aliases, control_set_aliases}

abbrev pub all_names : List Candidate → List Text
all_names [] = []
all_names (c ∷ cs) = c.name ∷ all_names cs

-- The loop that fills `by_name`.
unfoldable pub check_names : List Text → List Candidate → Result RootError Unit
check_names seen [] = ok tt
check_names seen (c ∷ cs) =
    raise_if (is_in c.name seen) (duplicated c.name) >> check_names (c.name ∷ seen) cs

-- `dependencies`
unfoldable pub edges_of : List Text → List Candidate → Edges
unfolding meet
edges_of known [] = []
edges_of known (c ∷ cs) = (c.name, meet c.input_dependencies known) ∷ edges_of known cs

abbrev pub is_ineligible_set : Candidate → Bool
is_ineligible_set c = not c.eligible && ltb 0 (length c.control_ids)

abbrev pub meets_ineligible : Candidate → Candidate → Bool
meets_ineligible c other = is_ineligible_set other && overlaps c.control_ids other.control_ids

unfoldable pub is_eligible : List Candidate → Candidate → Bool
is_eligible cs c = c.eligible && (ltb 0 (length c.control_ids) && not (any (meets_ineligible c) cs))

-- `eligible`
unfoldable pub eligible_of : List Candidate → List Candidate → List Candidate
unfolding is_eligible
eligible_of all_of [] = []
eligible_of all_of (c ∷ cs) =
    let rest = eligible_of all_of cs in if is_eligible all_of c then c ∷ rest else rest

-- `{aliases[name] for name in selected if name in aliases}`
unfoldable pub alias_of : Aliases → Text → Option Text
alias_of [] name = none
alias_of ((key, owner) ∷ rest) name =
    let later = alias_of rest name in if bytes_eq name key then some owner else later

abbrev pub push : Option Text → List Text → List Text
push none rest = rest
push (some owner) rest = owner ∷ rest

unfoldable pub owners_of : Aliases → List Text → List Text
unfolding alias_of
owners_of aliases [] = []
owners_of aliases (name ∷ rest) = push (alias_of aliases name) (owners_of aliases rest)

abbrev pub is_nonempty : List Text → Bool
is_nonempty xs = ltb 0 (length xs)

unfoldable pub selection : List Text → Edges → Option (List Text) → Result RootError (List Text)
unfolding dependency_closure minus
selection known edges none = ok known
selection known edges (some relevant) =
    raise_if (is_nonempty (minus relevant known)) (unavailable (sorted_set (minus relevant known)))
    >> dependency_closure (minus relevant []) edges

unfoldable pub select_control_roots :
    List Candidate → Option (List Text) → Result RootError (List Text)
unfolding edges_of check_names validate_acyclic control_set_aliases eligible_of selection owners_of
    sorted_set
select_control_roots cs relevant =
    check_names [] cs
    >> (validate_acyclic (edges_of (all_names cs) cs) >>= λ _.
        control_set_aliases (eligible_of cs cs) >>= λ aliases.
        selection (all_names cs) (edges_of (all_names cs) cs) relevant >>= λ selected.
        ok (sorted_set (owners_of aliases selected)))
