-- ===== src/Tests/Selecting.antt =====
-- A form that has the controls of a slider, and a view that depends on the slider.
use marimo_export.Prelude.{
  Bool, true, false, List, [], ◌∷◌, none, some, ◌≡◌, ◌↔◌, refl, ok, err, ◌⊎◌, inl, inr,
}
use mathlib.Core.List.{Memᴰ}
use mathlib.Core.List.Memᴰ
use marimo_export.Format.{codes}
use marimo_export.Format.Texts.{Text, is_in, sorted_set, least}
use marimo_export.Controls.{Candidate, RootError, cycle, deps_of, validate_acyclic, check_candidate}
use marimo_export.Controls.Aliases.{Aliases, alias_each, control_set_aliases}
use marimo_export.Controls.Select.{check_names, eligible_of, alias_of, select_control_roots}
use marimo_export.Controls.Paths.{Leads, Reached}
use marimo_export.Controls.Unique.{Owned, one_owner}
use marimo_export.Controls.Selected.{select_lem, select_ends, IsRaised}
use marimo_export.Controls.Dependencies.{dependencies, acyclic_lem}

abbrev slider : Candidate
slider = record {
  name = codes "slider";
  control_ids = codes "c1" ∷ [];
  input_dependencies = [];
  eligible = true;
}

abbrev form : Candidate
form = record {
  name = codes "form";
  control_ids = codes "c1" ∷ codes "c2" ∷ [];
  input_dependencies = [];
  eligible = true;
}

abbrev view : Candidate
view = record {
  name = codes "view";
  control_ids = [];
  input_dependencies = codes "slider" ∷ [];
  eligible = false;
}

abbrev candidates : List Candidate
candidates = slider ∷ form ∷ view ∷ []

abbrev controls : List Candidate
controls = slider ∷ form ∷ []

abbrev is_identifier : Text → Bool
is_identifier name = true

abbrev aliases : Aliases
aliases = (codes "slider", codes "form") ∷ (codes "form", codes "form") ∷ []

selected : select_control_roots candidates (some (codes "view" ∷ [])) ≡ ok (codes "form" ∷ [])
unfolding select_control_roots deps_of alias_each least
selected = refl

-- Two candidates that need each other.
abbrev loop : List Candidate
loop =
    (record slider { input_dependencies = codes "form" ∷ [] })
    ∷ (record form { input_dependencies = codes "slider" ∷ [] })
    ∷ []

looped : select_control_roots loop none ≡ err cycle
unfolding select_control_roots deps_of
looped = refl

controls-IsChecked : (c : Candidate) → Memᴰ c controls → check_candidate is_identifier c ≡ ok tt
unfolding check_candidate sorted_set
controls-IsChecked c m = elim (Memᴰ.cases_cons m) [
  | inl e ↦ rw e refl
  | inr n ↦ rw (Memᴰ.eq_of_singleton n) refl
]

controls-distinct : check_names [] controls ≡ ok tt
unfolding check_names
controls-distinct = refl

controls-owned : control_set_aliases controls ≡ ok aliases
unfolding control_set_aliases alias_each least
controls-owned = refl

one_owner_example : (r : Candidate) × Owned controls aliases slider form r
one_owner_example =
    one_owner is_identifier controls aliases slider form controls-IsChecked controls-distinct
      controls-owned (Memᴰ.head refl) (Memᴰ.tail (Memᴰ.head refl)) refl

select_lem_example :
    (owned : Aliases) × (control_set_aliases (eligible_of candidates candidates) ≡ ok owned)
    × ((x : Text)
        → (is_in x (codes "form" ∷ []) ≡ true) ↔ (
            (y : Text) × Reached (dependencies candidates) (codes "view" ∷ []) y
            × (alias_of owned y ≡ some x)))
select_lem_example = select_lem candidates (codes "view" ∷ []) (codes "form" ∷ []) selected

acyclic_lem_example :
    (((order : List Text) × (validate_acyclic (dependencies loop) ≡ ok order))
      × ((x : Text) → ¬ Leads (dependencies loop) x x))
    ⊎ ((validate_acyclic (dependencies loop) ≡ err cycle)
        × (x : Text) × Leads (dependencies loop) x x)
acyclic_lem_example = acyclic_lem loop

select_ends_example :
    ((roots : List Text) × (select_control_roots loop none ≡ ok roots))
    ⊎ ((e : RootError) × (select_control_roots loop none ≡ err e) × IsRaised e)
select_ends_example = select_ends loop none
