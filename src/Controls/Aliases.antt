-- ===== src/Controls/Aliases.antt =====
-- `_control_set_aliases` of `_control_roots.py`: each control set has as its owner the longest set
-- that contains it.
use marimo_export.Prelude.{
  Bool, true, false, ◌&&◌, ◌||◌, not, List, [], ◌∷◌, length, any, bytes_eq, ltb, ◌==◌,
  if◌then◌else◌, Result, ok, ◌>>◌, raise_if,
}
use marimo_export.Format.Texts.{Text, is_strict, is_same, overlaps, text_lt, least, sorted_set}
use marimo_export.Controls.{Candidate, RootError, overlap}

-- `sorted(equal_sets, key=lambda controls: (len(controls), sorted(controls)))`
unfoldable pub texts_lt : List Text → List Text → Bool
texts_lt [] [] = false
texts_lt [] (y ∷ ys) = true
texts_lt (x ∷ xs) [] = false
texts_lt (x ∷ xs) (y ∷ ys) = text_lt x y || (bytes_eq x y && texts_lt xs ys)

unfoldable pub key_lt : List Text → List Text → Bool
unfolding texts_lt
key_lt a b =
    ltb (length a) (length b) || ((length a == length b) && texts_lt (sorted_set a) (sorted_set b))

unfoldable pub insert_set : List Text → List (List Text) → List (List Text)
unfolding key_lt
insert_set a [] = a ∷ []
insert_set a (b ∷ bs) = let rest = insert_set a bs in if key_lt b a then b ∷ rest else a ∷ (b ∷ bs)

unfoldable pub sort_sets : List (List Text) → List (List Text)
unfolding insert_set
sort_sets [] = []
sort_sets (a ∷ more) = insert_set a (sort_sets more)

-- The keys of `equal_sets`: each set once, as its first candidate has it.
unfoldable pub keys_after : List (List Text) → List Candidate → List (List Text)
keys_after seen [] = []
keys_after seen (c ∷ cs) =
    let known = keys_after seen cs in
    let added = keys_after (c.control_ids ∷ seen) cs in
    if any (is_same c.control_ids) seen then known else c.control_ids ∷ added

-- `min(candidate.name for candidate in equal_sets[controls])`
unfoldable pub group : List Text → List Candidate → List Text
group controls [] = []
group controls (c ∷ cs) =
    let rest = group controls cs in if is_same controls c.control_ids then c.name ∷ rest else rest

abbrev pub first_name : List Text → Text
first_name [] = []
first_name (x ∷ xs) = least x xs

unfoldable pub group_name : List Candidate → List Text → Text
unfolding group
group_name cs controls = first_name (group controls cs)

abbrev pub clashes : List Text → List Text → Bool
clashes a b = overlaps a b && not (is_strict a b || is_strict b a)

unfoldable pub check_against : List Candidate → List Text → List (List Text) → Result RootError Unit
unfolding group_name
check_against cs a [] = ok tt
check_against cs a (b ∷ bs) =
    raise_if (clashes a b) (overlap (group_name cs a) (group_name cs b)) >> check_against cs a bs

unfoldable pub check_pairs : List Candidate → List (List Text) → Result RootError Unit
unfolding check_against
check_pairs cs [] = ok tt
check_pairs cs (a ∷ more) = check_against cs a more >> check_pairs cs more

-- `max(supersets, key=len) if supersets else controls`: the first of the longest.
unfoldable pub longest : List Text → List (List Text) → List Text
longest best [] = best
longest best (b ∷ bs) = longest (if ltb (length best) (length b) then b else best) bs

unfoldable pub supersets : List Text → List (List Text) → List (List Text)
supersets controls [] = []
supersets controls (b ∷ bs) =
    let rest = supersets controls bs in if is_strict controls b then b ∷ rest else rest

abbrev pub longest_or : List Text → List (List Text) → List Text
longest_or controls [] = controls
longest_or controls (b ∷ bs) = longest b bs

unfoldable pub owner_set : List (List Text) → List Text → List Text
unfolding supersets longest
owner_set control_sets controls = longest_or controls (supersets controls control_sets)

abbrev pub Aliases : Type 0
Aliases = List (Text × Text)

unfoldable pub control_sets_of : List Candidate → List (List Text)
unfolding sort_sets keys_after
control_sets_of cs = sort_sets (keys_after [] cs)

unfoldable pub alias_each : List Candidate → List (List Text) → List Candidate → Aliases
unfolding owner_set group_name
alias_each all_of control_sets [] = []
alias_each all_of control_sets (c ∷ cs) =
    (c.name, group_name all_of (owner_set control_sets c.control_ids))
    ∷ alias_each all_of control_sets cs

unfoldable pub control_set_aliases : List Candidate → Result RootError Aliases
unfolding check_pairs control_sets_of alias_each
control_set_aliases cs =
    check_pairs cs (control_sets_of cs) >> ok (alias_each cs (control_sets_of cs) cs)
