-- ===== src/Controls/Dependencies.antt =====
-- The dependencies of candidates are names of candidates, so that both walks over them end.
use marimo_export.Prelude.{
  true, false, List, [], ◌∷◌, ◌≡◌, ◌↔◌, refl, sym, ap, arith, Bool-cases, inl, inr, ◌⊎◌, Result, ok,
  err, some, bytes_eq,
}
use mathlib.Core.Path.{subst}
use marimo_export.Format.Texts.{
  Text, is_in, is_subset, meet, minus, is_in-meet, is_in-minus, subset-of_members, sorted_set,
}
use marimo_export.Controls.{
  Candidate, RootError, cycle, unavailable, Edges, names, deps_of, validate_acyclic,
}
use marimo_export.Controls.Select.{all_names, edges_of, is_nonempty, selection}
use marimo_export.Controls.Paths.{Leads, Reached, IsClosed}
use marimo_export.Controls.Closure.{dependency_closure_lem}
use marimo_export.Controls.Acyclic.{validate_acyclic_lem}

unfoldable pub dependencies : List Candidate → Edges
unfolding edges_of meet
dependencies cs = edges_of (all_names cs) cs

names-edges_of :
    (known : List Text) (cs : List Candidate) → names (edges_of known cs) ≡ all_names cs
unfolding edges_of meet
names-edges_of known [] = refl
names-edges_of known (c ∷ cs) = ap (◌∷◌ c.name) (names-edges_of known cs)

edges_of-known :
    (known : List Text) (cs : List Candidate) (x : Text) (deps : List Text)
    → deps_of (edges_of known cs) x ≡ ok deps
    → is_subset deps known ≡ true
unfolding edges_of deps_of
edges_of-known known [] x deps h = absurd (ground arith)
edges_of-known known (c ∷ cs) x deps h = elim (Bool-cases (bytes_eq x c.name)) [
  | inr other ↦ edges_of-known known cs x deps (rw other at h)
  | inl same ↦
      let e : Path (Result RootError (List Text)) (ok (meet c.input_dependencies known)) (ok deps) =
        rw same at h in
      let inside : is_subset (meet c.input_dependencies known) known ≡ true =
        subset-of_members (meet c.input_dependencies known) known
          λ y m. ground (arith, m, is_in-meet y c.input_dependencies known) in
      subst (λ z. is_subset z known ≡ true) (cc) inside
]

pub dependencies-IsClosed : (cs : List Candidate) → IsClosed (dependencies cs)
unfolding dependencies edges_of
dependencies-IsClosed cs x deps h =
    subst (λ z. is_subset deps z ≡ true) (sym (names-edges_of (all_names cs) cs))
      (edges_of-known (all_names cs) cs x deps h)

-- The walk over the dependencies of candidates ends and no name leads to itself through them,
-- or it raises the cycle error and some name does.
pub acyclic_lem :
    (cs : List Candidate)
    → (((order : List Text) × (validate_acyclic (dependencies cs) ≡ ok order))
        × ((x : Text) → ¬ Leads (dependencies cs) x x))
      ⊎ ((validate_acyclic (dependencies cs) ≡ err cycle)
          × (x : Text) × Leads (dependencies cs) x x)
acyclic_lem cs = validate_acyclic_lem (dependencies cs) (dependencies-IsClosed cs)

minus-nothing : (a b : List Text) → is_nonempty (minus a b) ≡ false → is_subset a b ≡ true
minus-nothing a b h = subset-of_members a b λ x m. elim (Bool-cases (is_in x b)) [
  | inl there ↦ there
  | inr out ↦ absurd (nothing x (minus a b) h (ground (arith, m, out, is_in-minus x a b)))
]
  where
    nothing : (x : Text) (ys : List Text) → is_nonempty ys ≡ false → ¬ (is_in x ys ≡ true)
    nothing x [] e m = ground arith
    nothing x (y ∷ ys) e m = ground (arith, e)

pub selection_lem :
    (cs : List Candidate) (relevant : List Text)
    → ((r : List Text) × (selection (all_names cs) (dependencies cs) (some relevant) ≡ ok r)
        × ((x : Text) → (is_in x r ≡ true) ↔ Reached (dependencies cs) relevant x))
      ⊎ ((missing : List Text) × (selection (all_names cs) (dependencies cs) (some relevant)
            ≡ err (unavailable missing)))
unfolding selection dependencies
selection_lem cs relevant = elim (Bool-cases (is_nonempty (minus relevant (all_names cs)))) [
  | inl unknown ↦ inr (sorted_set (minus relevant (all_names cs)), rw unknown refl)
  | inr known ↦
      let inside =
        subst (λ z. is_subset relevant z ≡ true) (sym (names-edges_of (all_names cs) cs))
          (minus-nothing relevant (all_names cs) known) in
      let (r, e, h) =
        dependency_closure_lem (dependencies cs) relevant (dependencies-IsClosed cs) inside in
      inl (r, rw known e, h)
]
