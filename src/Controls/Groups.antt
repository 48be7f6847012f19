-- ===== src/Controls/Groups.antt =====
-- The candidates of one control set, and the name that their owner gives them.
use marimo_export.Prelude.{
  true, false, List, [], ◌∷◌, ◌≡◌, refl, ap, arith, Bool-cases, inl, inr, ok,
}
use mathlib.Core.Path.{subst}
use mathlib.Core.List.{Memᴰ}
use mathlib.Core.List.Memᴰ
use marimo_export.Format.Texts.{Text, is_strict, is_same, overlaps, least, text_lt}
use marimo_export.Controls.{Candidate}
use marimo_export.Controls.Aliases.{
  group, group_name, first_name, check_pairs, owner_set, control_sets_of,
}
use marimo_export.Controls.Subsets.{overlaps_comm, same_cong, same_self}
use marimo_export.Controls.Keys.{of_set, check_pairs-Memᴰ}
use marimo_export.Controls.Owners.{IsOwner}

pub group_cong :
    (a b : List Text) (cs : List Candidate) → is_same a b ≡ true → group a cs ≡ group b cs
unfolding group
group_cong a b [] h = refl
group_cong a b (c ∷ cs) h = rw (same_cong a b c.control_ids h, group_cong a b cs h) refl

least-Memᴰ : (x : Text) (xs : List Text) → Memᴰ (least x xs) (x ∷ xs)
unfolding least
least-Memᴰ x [] = Memᴰ.head refl
least-Memᴰ x (y ∷ ys) = elim (Bool-cases (text_lt y x)) [
  | inl less ↦ rw less (Memᴰ.tail (least-Memᴰ y ys))
  | inr other ↦ rw other (elim (Memᴰ.cases_cons (least-Memᴰ x ys)) [
    | inl e ↦ Memᴰ.head e
    | inr m ↦ Memᴰ.tail (Memᴰ.tail m)
  ])
]

first_name-Memᴰ : (n : Text) (ns : List Text) → Memᴰ n ns → Memᴰ (first_name ns) ns
first_name-Memᴰ n [] m = absurd (Memᴰ.not-nil m)
first_name-Memᴰ n (k ∷ ns) m = least-Memᴰ k ns

pub Memᴰ-group :
    (o : List Text) (cs : List Candidate) (c : Candidate)
    → Memᴰ c cs
    → is_same o c.control_ids ≡ true
    → Memᴰ c.name (group o cs)
unfolding group
Memᴰ-group o [] c m h = absurd (Memᴰ.not-nil m)
Memᴰ-group o (d ∷ cs) c m h = elim (Bool-cases (is_same o d.control_ids)) [
  | inl same ↦ rw same (elim (Memᴰ.cases_cons m) [
    | inl e ↦ Memᴰ.head (ap (λ (z : Candidate). z.name) e)
    | inr n ↦ Memᴰ.tail (Memᴰ-group o cs c n h)
  ])
  | inr other ↦ rw other (elim (Memᴰ.cases_cons m) [
    | inl e ↦
        let same = subst (λ (z : Candidate). is_same o z.control_ids ≡ true) e h in
        absurd (ground (arith, same, other))
    | inr n ↦ Memᴰ-group o cs c n h
  ])
]

pub group-Memᴰ :
    (o : List Text) (cs : List Candidate) (n : Text)
    → Memᴰ n (group o cs)
    → (r : Candidate) × Memᴰ r cs × (n ≡ r.name) × (is_same o r.control_ids ≡ true)
unfolding group
group-Memᴰ o [] n m = absurd (Memᴰ.not-nil m)
group-Memᴰ o (d ∷ cs) n m = elim (Bool-cases (is_same o d.control_ids)) [
  | inl same ↦ elim (Memᴰ.cases_cons (rw same at m)) [
    | inl e ↦ (d, Memᴰ.head refl, e, same)
    | inr l ↦ let (r, k, e, h) = group-Memᴰ o cs n l in (r, Memᴰ.tail k, e, h)
  ]
  | inr other ↦ let (r, k, e, h) = group-Memᴰ o cs n (rw other at m) in (r, Memᴰ.tail k, e, h)
]

unfoldable pub owner_of : List Candidate → Candidate → List Text
unfolding control_sets_of owner_set
owner_of cs c = owner_set (control_sets_of cs) c.control_ids

-- An owner is a candidate's set.
pub candidate_of :
    (cs : List Candidate) (c : Candidate) (o : List Text)
    → Memᴰ c cs
    → IsOwner (control_sets_of cs) c.control_ids o
    → (d : Candidate) × Memᴰ d cs × (is_same o d.control_ids ≡ true)
candidate_of cs c o m w = elim w.known [
  | inl e ↦ (c, m, rw e (same_self c.control_ids))
  | inr there ↦
      let (d, n, e) = of_set cs o there in (d, n, subst (λ z. is_same o z ≡ true) e (same_self o))
]

unfoldable pub IsNamed : List Candidate → List Text → Text → Type 0
IsNamed cs o n = (r : Candidate) × Memᴰ r cs × (n ≡ r.name) × (is_same o r.control_ids ≡ true)

pub group_name-IsNamed :
    (cs : List Candidate) (c : Candidate) (o : List Text)
    → Memᴰ c cs
    → IsOwner (control_sets_of cs) c.control_ids o
    → IsNamed cs o (group_name cs o)
unfolding IsNamed group group_name
group_name-IsNamed cs c o m w =
    let (d, n, h) = candidate_of cs c o m w in
    group-Memᴰ o cs (first_name (group o cs))
      (first_name-Memᴰ d.name (group o cs) (Memᴰ-group o cs d n h))

pub nested :
    (cs : List Candidate) (k l : List Text)
    → check_pairs cs (control_sets_of cs) ≡ ok tt
    → Memᴰ k (control_sets_of cs)
    → Memᴰ l (control_sets_of cs)
    → overlaps k l ≡ true
    → is_strict k l ≡ false
    → is_strict l k ≡ false
    → k ≡ l
nested cs k l h m n meets below above = elim (check_pairs-Memᴰ cs (control_sets_of cs) k l h m n) [
  | inl e ↦ e
  | inr (inl free) ↦ absurd (ground (arith, free, meets, below, above))
  | inr (inr free) ↦ absurd (ground (arith, free, overlaps_comm k l meets, below, above))
]
