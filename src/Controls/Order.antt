-- ===== src/Controls/Order.antt =====
-- The order in which the walk of `_validate_acyclic` leaves the names, and what it excludes.
use marimo_export.Prelude.{
  true, false, List, [], ◌∷◌, ◌≡◌, refl, sym, ap, arith, ok, bytes_eq, Bool-cases, inl, inr,
  if◌then◌else◌,
}
use mathlib.Core.Path.{subst, ◌∙◌}
use marimo_export.Format.Texts.{
  Text, is_in, is_subset, bytes_eq_lem, is_in-subset, subset-of_members,
}
use marimo_export.Controls.{Edges, deps_of}
use marimo_export.Controls.Paths.{Leads, edge, further}

-- The names that the walk has left, the last one first: each has its dependencies after it.
unfoldable pub Topo : Edges → List Text → Type 0
Topo edges [] = Unit
Topo edges (x ∷ v) =
    (is_in x v ≡ false)
    × ((deps : List Text) → deps_of edges x ≡ ok deps → is_subset deps v ≡ true)
    × Topo edges v

-- What follows in `after` the name that is there.
unfoldable after_of : Text → List Text → List Text
after_of x [] = []
after_of x (y ∷ v) = let rest = after_of x v in if bytes_eq x y then v else rest

after_of-Topo :
    (edges : Edges) (x : Text) (v : List Text) → Topo edges v → Topo edges (after_of x v)
unfolding after_of Topo
after_of-Topo edges x [] t = t
after_of-Topo edges x (y ∷ v) t = elim (Bool-cases (bytes_eq x y)) [
  | inl same ↦ rw same t.2
  | inr other ↦ rw other (after_of-Topo edges x v t.2)
]

after_of-subset : (x : Text) (v : List Text) → is_subset (after_of x v) v ≡ true
unfolding after_of
after_of-subset x [] = refl
after_of-subset x (y ∷ v) = subset-of_members (after_of x (y ∷ v)) (y ∷ v) λ z m.
    elim (Bool-cases (bytes_eq x y)) [
      | inl same ↦ ground (arith, same, m)
      | inr other ↦
          ground (
            arith,
            is_in-subset z (after_of x v) v (after_of-subset x v) (ground (arith, other, m)),
          )
    ]

after_of-out :
    (edges : Edges) (x : Text) (v : List Text) → Topo edges v → is_in x (after_of x v) ≡ false
unfolding after_of Topo
after_of-out edges x [] t = refl
after_of-out edges x (y ∷ v) t = elim (Bool-cases (bytes_eq x y)) [
  | inl same ↦
      let e = (bytes_eq_lem x y).0 same in rw same (subst (λ z. is_in z v ≡ false) (sym e) t.0)
  | inr other ↦ rw other (after_of-out edges x v t.2)
]

edge-after :
    (edges : Edges) (x y : Text) (deps v : List Text)
    → Topo edges v
    → is_in x v ≡ true
    → deps_of edges x ≡ ok deps
    → is_in y deps ≡ true
    → is_in y (after_of x v) ≡ true
unfolding after_of Topo
edge-after edges x y deps [] t m e h = absurd (ground arith)
edge-after edges x y deps (z ∷ v) t m e h = elim (Bool-cases (bytes_eq x z)) [
  | inl same ↦
      let k = (bytes_eq_lem x z).0 same in
      rw same (is_in-subset y deps v (t.1 deps (ap (deps_of edges) (sym k) ∙ e)) h)
  | inr other ↦ rw other (edge-after edges x y deps v t.2 (ground (arith, other, m)) e h)
]

Leads-after :
    (edges : Edges) (x y : Text) (v : List Text)
    → Topo edges v
    → is_in x v ≡ true
    → Leads edges x y
    → is_in y (after_of x v) ≡ true
Leads-after edges x y v t m (edge deps e h) = edge-after edges x y deps v t m e h
Leads-after edges x y v t m (further {y = z} deps before e h) =
    let w = after_of x v in
    let there = Leads-after edges x z v t m before in
    is_in-subset y (after_of z w) w (after_of-subset z w)
      (edge-after edges z y deps w (after_of-Topo edges x v t) there e h)

-- Names in this order lie on no cycle.
pub no_cycle :
    (edges : Edges) (x : Text) (v : List Text) → Topo edges v → is_in x v ≡ true → ¬ Leads edges x x
no_cycle edges x v t m l =
    let there = Leads-after edges x x v t m l in
    let out = after_of-out edges x v t in ground (arith, there, out)
