-- ===== src/Controls/Selected.antt =====
-- What `select_control_roots` returns, and what it raises.
use marimo_export.Prelude.{
  true, List, [], ◌∷◌, ◌≡◌, ◌↔◌, refl, sym, ap, arith, Bool-cases, inl, inr, ◌⊎◌, ok, err, then-ok,
  bind-ok, ok-injective, Option, none, some, bytes_eq,
}
use mathlib.Core.Path.{subst, ◌∙◌}
use marimo_export.Format.Texts.{
  Text, is_in, is_in-sorted_set, bytes_eq_lem, bytes_eq_self, sorted_set,
}
use marimo_export.Controls.{
  Candidate, RootError, duplicated, cycle, unavailable, overlap, validate_acyclic,
}
use marimo_export.Controls.Aliases.{
  Aliases, control_set_aliases, check_pairs, check_against, control_sets_of, alias_each, group_name,
  clashes,
}
use marimo_export.Controls.Select.{
  all_names, check_names, eligible_of, alias_of, push, owners_of, selection, select_control_roots,
}
use marimo_export.Controls.Paths.{Reached}
use marimo_export.Controls.Dependencies.{dependencies, acyclic_lem, selection_lem}

push-is_in :
    (x : Text) (owner : Option Text) (rest : List Text)
    → is_in x (push owner rest) ≡ true
    → (owner ≡ some x) ⊎ (is_in x rest ≡ true)
push-is_in x none rest h = inr h
push-is_in x (some y) rest h = elim (Bool-cases (bytes_eq x y)) [
  | inl same ↦ inl (ap some (sym ((bytes_eq_lem x y).0 same)))
  | inr other ↦ inr (ground (arith, other, h))
]

is_in-push :
    (x : Text) (owner : Option Text) (rest : List Text)
    → (owner ≡ some x) ⊎ (is_in x rest ≡ true)
    → is_in x (push owner rest) ≡ true
is_in-push x none rest (inl e) = absurd (ground arith)
is_in-push x (some y) rest (inl e) =
    let same : y ≡ x = cc in
    subst (λ z. is_in x (z ∷ rest) ≡ true) (sym same) (ground (arith, bytes_eq_self x))
is_in-push x none rest (inr m) = m
is_in-push x (some y) rest (inr m) = ground (arith, m)

owners_of-is_in :
    (aliases : Aliases) (ys : List Text) (x : Text)
    → is_in x (owners_of aliases ys) ≡ true
    → (y : Text) × (is_in y ys ≡ true) × (alias_of aliases y ≡ some x)
unfolding owners_of
owners_of-is_in aliases [] x h = absurd (ground arith)
owners_of-is_in aliases (y ∷ ys) x h =
    elim (push-is_in x (alias_of aliases y) (owners_of aliases ys) h) [
      | inl e ↦ (y, ground (arith, bytes_eq_self y), e)
      | inr m ↦ let (z, n, e) = owners_of-is_in aliases ys x m in (z, ground (arith, n), e)
    ]

is_in-owners_of :
    (aliases : Aliases) (ys : List Text) (x y : Text)
    → is_in y ys ≡ true
    → alias_of aliases y ≡ some x
    → is_in x (owners_of aliases ys) ≡ true
unfolding owners_of
is_in-owners_of aliases [] x y m e = absurd (ground arith)
is_in-owners_of aliases (z ∷ ys) x y m e =
    is_in-push x (alias_of aliases z) (owners_of aliases ys) (elim (Bool-cases (bytes_eq y z)) [
      | inl same ↦ inl (ap (alias_of aliases) (sym ((bytes_eq_lem y z).0 same)) ∙ e)
      | inr other ↦ inr (is_in-owners_of aliases ys x y (ground (arith, other, m)) e)
    ])

abbrev IsReached : List Candidate → List Text → List Text → Type 0
IsReached cs relevant r = (x : Text) → (is_in x r ≡ true) ↔ Reached (dependencies cs) relevant x

roots_lem :
    (cs : List Candidate) (relevant : List Text) (aliases : Aliases) (r roots : List Text)
    → sorted_set (owners_of aliases r) ≡ roots
    → IsReached cs relevant r
    → (x : Text)
    → (is_in x roots ≡ true)
      ↔ ((y : Text) × Reached (dependencies cs) relevant y × (alias_of aliases y ≡ some x))
roots_lem cs relevant aliases r roots h reach x =
    let member : is_in x roots ≡ is_in x (owners_of aliases r) =
      subst (λ z. is_in x z ≡ is_in x (owners_of aliases r)) h
        (is_in-sorted_set x (owners_of aliases r)) in
    (
      λ m. let (y, n, e) = owners_of-is_in aliases r x (sym member ∙ m) in (y, (reach y).0 n, e),
      λ (y, n, e). member ∙ is_in-owners_of aliases r x y ((reach y).1 n) e,
    )

-- Where the selection for the relevant names returns, its roots are exactly the aliases that
-- the eligible candidates have been given among the names that the relevant ones reach through
-- the dependencies.
pub select_lem :
    (cs : List Candidate) (relevant roots : List Text)
    → select_control_roots cs (some relevant) ≡ ok roots
    → (aliases : Aliases) × (control_set_aliases (eligible_of cs cs) ≡ ok aliases)
      × ((x : Text)
          → (is_in x roots ≡ true)
            ↔ ((y : Text) × Reached (dependencies cs) relevant y × (alias_of aliases y ≡ some x)))
unfolding select_control_roots dependencies
select_lem cs relevant roots h =
    let (_, walked) = then-ok (check_names [] cs) _ h in
    let (_, _, named) = bind-ok (validate_acyclic (dependencies cs)) _ walked in
    let (aliases, owned, selecting) = bind-ok (control_set_aliases (eligible_of cs cs)) _ named in
    let (chosen, taken, returned) =
      bind-ok (selection (all_names cs) (dependencies cs) (some relevant)) _ selecting in
    (
      aliases,
      owned,
      elim (selection_lem cs relevant) [
        | inr (missing, e) ↦ absurd (ground (arith, e, taken))
        | inl (r, e, reach) ↦
            let same : r ≡ chosen = cc in
            let member = subst (λ (z : List Text). IsReached cs relevant z) same reach in
            roots_lem cs relevant aliases chosen roots (ok-injective returned) member
      ],
    )

-- What the source raises: no fuel has ended and no name was missing in the dict.
pub IsRaised : RootError → Type 0
IsRaised (duplicated name) = Unit
IsRaised cycle = Unit
IsRaised (overlap one other) = Unit
IsRaised (unavailable missing) = Unit
IsRaised _ = ⊥

check_names_lem :
    (seen : List Text) (cs : List Candidate)
    → (check_names seen cs ≡ ok tt)
      ⊎ ((name : Text) × (check_names seen cs ≡ err (duplicated name)))
unfolding check_names
check_names_lem seen [] = inl refl
check_names_lem seen (c ∷ cs) = elim (Bool-cases (is_in c.name seen)) [
  | inl again ↦ inr (c.name, rw again refl)
  | inr new ↦ rw new (check_names_lem (c.name ∷ seen) cs)
]

check_against_lem :
    (cs : List Candidate) (a : List Text) (bs : List (List Text))
    → (check_against cs a bs ≡ ok tt)
      ⊎ ((x : Text) × (y : Text) × (check_against cs a bs ≡ err (overlap x y)))
unfolding check_against
check_against_lem cs a [] = inl refl
check_against_lem cs a (b ∷ bs) = elim (Bool-cases (clashes a b)) [
  | inl clash ↦ inr (group_name cs a, group_name cs b, rw clash refl)
  | inr fine ↦ rw fine (check_against_lem cs a bs)
]

check_pairs_lem :
    (cs : List Candidate) (bs : List (List Text))
    → (check_pairs cs bs ≡ ok tt)
      ⊎ ((x : Text) × (y : Text) × (check_pairs cs bs ≡ err (overlap x y)))
unfolding check_pairs
check_pairs_lem cs [] = inl refl
check_pairs_lem cs (b ∷ bs) = elim (check_against_lem cs b bs) [
  | inr (x, y, e) ↦ inr (x, y, rw e refl)
  | inl e ↦ rw e (check_pairs_lem cs bs)
]

selected_lem :
    (cs : List Candidate) (relevant : Option (List Text))
    → ((r : List Text) × (selection (all_names cs) (dependencies cs) relevant ≡ ok r))
      ⊎ ((missing : List Text) × (selection (all_names cs) (dependencies cs) relevant
            ≡ err (unavailable missing)))
unfolding selection dependencies
selected_lem cs none = inl (all_names cs, refl)
selected_lem cs (some relevant) = elim (selection_lem cs relevant) [
  | inl (r, e, h) ↦ inl (r, e)
  | inr (missing, e) ↦ inr (missing, e)
]

abbrev roots_of : List Candidate → List Text → List Text
roots_of cs r = sorted_set (
    owners_of
      (alias_each (eligible_of cs cs) (control_sets_of (eligible_of cs cs)) (eligible_of cs cs)) r)

-- The selection of control roots ends for all candidates and all relevant names: it returns,
-- or it raises a duplicated name, a cycle, an overlap or an unavailable name; neither walk
-- runs out of its fuel, and neither looks up a name that the dict does not have.
pub select_ends :
    (cs : List Candidate) (relevant : Option (List Text))
    → ((roots : List Text) × (select_control_roots cs relevant ≡ ok roots))
      ⊎ ((e : RootError) × (select_control_roots cs relevant ≡ err e) × IsRaised e)
unfolding select_control_roots control_set_aliases dependencies IsRaised
select_ends cs relevant = elim (check_names_lem [] cs) [
  | inr (name, e) ↦ inr (duplicated name, rw e refl, tt)
  | inl distinct ↦ elim (acyclic_lem cs) [
    | inr (e, x, loop) ↦ inr (cycle, rw (distinct, e) refl, tt)
    | inl ((order, walked), free) ↦
        elim (check_pairs_lem (eligible_of cs cs) (control_sets_of (eligible_of cs cs))) [
          | inr (x, y, e) ↦ inr (overlap x y, rw (distinct, walked, e) refl, tt)
          | inl paired ↦ elim (selected_lem cs relevant) [
            | inr (missing, e) ↦
                inr (unavailable missing, rw (distinct, walked, paired, e) refl, tt)
            | inl (r, e) ↦ inl (roots_of cs r, rw (distinct, walked, paired, e) refl)
          ]
        ]
  ]
]
