-- ===== src/Controls/Acyclic.antt =====
-- The depth-first walk of `_validate_acyclic`: it ends, and it raises exactly on a cycle.
use marimo_export.Prelude.{
  ℕ, zero, suc, true, false, List, [], ◌∷◌, length, ◌≡◌, refl, sym, arith, Result, ok, err,
  bytes_eq, Bool-cases, inl, inr, ◌⊎◌, ◌<◌,
}
use mathlib.Core.Path.{subst}
use marimo_export.Format.Texts.{
  Text, is_in, is_subset, bytes_eq_lem, bytes_eq_self, is_in-subset, subset-of_members, subset_self,
  subset_trans,
}
use marimo_export.Controls.{
  RootError, cycle, Edges, names, deps_of, visit_each, visit, validate_acyclic,
}
use marimo_export.Controls.Paths.{
  Leads, edge, further, IsClosed, deps_of-name, length-names, left, left-le, left-cons,
}
use marimo_export.Controls.Order.{Topo, no_cycle}

abbrev IsApart : List Text → List Text → Type 0
IsApart active v = (x : Text) → is_in x active ≡ true → is_in x v ≡ false

record Ends (edges : Edges) (active v xs after : List Text) : Type 0 where
  in_order : Topo edges after
  apart : IsApart active after
  kept : is_subset v after ≡ true
  visited : is_subset xs after ≡ true

unfoldable Outcome :
    Edges → List Text → List Text → List Text → Result RootError (List Text) → Type 0
Outcome edges active v xs r =
    ((after : List Text) × (r ≡ ok after) × Ends edges active v xs after)
    ⊎ ((r ≡ err cycle) × (c : Text) × Leads edges c c)

module _ (edges : Edges) (active : List Text) where
  abbrev IsStep : (List Text → Text → Result RootError (List Text)) → Text → Type 0
  IsStep walk x =
      (v : List Text) → Topo edges v → IsApart active v → Outcome edges active v (x ∷ []) (walk v x)

  each_lem :
      (walk : List Text → Text → Result RootError (List Text)) (v xs : List Text)
      → ((x : Text) → is_in x xs ≡ true → IsStep walk x)
      → Topo edges v
      → IsApart active v
      → Outcome edges active v xs (visit_each walk v xs)
  unfolding Outcome
  each_lem walk v [] h t a =
      inl (v, refl, record { in_order = t; apart = a; kept = subset_self v; visited = refl })
  each_lem walk v (x ∷ xs) h t a = elim (h x (ground (arith, bytes_eq_self x)) v t a) [
    | inr (e, c, l) ↦ inr (rw e refl, c, l)
    | inl (w, e, k) ↦
        elim (each_lem walk w xs (λ y m. h y (ground (arith, m))) k.in_order k.apart) [
          | inr (f, c, l) ↦ inr (rw (e, f) refl, c, l)
          | inl (u, f, j) ↦ inl (
            u,
            rw (e, f) refl,
            record {
              in_order = j.in_order;
              apart = j.apart;
              kept = subset_trans v w u k.kept j.kept;
              visited =
                  let there : is_in x w ≡ true = ground (arith, k.visited) in
                  ground (arith, is_in-subset x w u j.kept there, j.visited);
            },
          )
        ]
  ]

visit_lem :
    (n : ℕ) (edges : Edges) (active v : List Text) (name : Text)
    → IsClosed edges
    → is_in name (names edges) ≡ true
    → left (names edges) active < n
    → ((a : Text) → is_in a active ≡ true → Leads edges a name)
    → Topo edges v
    → IsApart active v
    → Outcome edges active v (name ∷ []) (visit n edges active v name)
unfolding visit Outcome Topo
visit_lem zero edges active v name c m f l t a = absurd (omega arith)
visit_lem (suc n) edges active v name c m f l t a = elim (Bool-cases (is_in name active)) [
  | inl again ↦ inr (rw again refl, name, l name again)
  | inr entered ↦ elim (Bool-cases (is_in name v)) [
    | inl seen ↦ inl (
      v,
      rw (entered, seen) refl,
      record { in_order = t; apart = a; kept = subset_self v; visited = ground (arith, seen) },
    )
    | inr new ↦
        let (deps, found) = deps_of-name edges name m in
        let inside = c name deps found in
        let step : (x : Text)
            → is_in x deps ≡ true
            → IsStep edges (name ∷ active) (visit n edges (name ∷ active)) x =
          λ x h w.
            visit_lem n edges (name ∷ active) w x c (is_in-subset x deps (names edges) inside h)
              (omega (arith, left-cons (names edges) active name m entered, f))
              (λ b k. elim (Bool-cases (bytes_eq b name)) [
                | inl same ↦
                    let e = (bytes_eq_lem b name).0 same in
                    subst (λ z. Leads edges z x) (sym e) (edge deps found h)
                | inr other ↦ further deps (l b (ground (arith, other, k))) found h
              ]) in
        let together : IsApart (name ∷ active) v = λ x k. elim (Bool-cases (bytes_eq x name)) [
          | inl same ↦
              let e = (bytes_eq_lem x name).0 same in subst (λ z. is_in z v ≡ false) (sym e) new
          | inr other ↦ a x (ground (arith, other, k))
        ] in
        elim (each_lem edges (name ∷ active) (visit n edges (name ∷ active)) v deps step t
          together) [
            | inr (e, d, k) ↦ inr (rw (entered, new, found, e) refl, d, k)
            | inl (w, e, k) ↦
                let free = k.apart name (ground (arith, bytes_eq_self name)) in
                inl (
                  name ∷ w,
                  rw (entered, new, found, e) refl,
                  record {
                    in_order = (
                      free,
                      (λ ds g. subst (λ z. is_subset z w ≡ true) (cc) k.visited),
                      k.in_order,
                    );
                    apart = λ x h. elim (Bool-cases (bytes_eq x name)) [
                      | inl same ↦
                          let q = (bytes_eq_lem x name).0 same in
                          let off : is_in x active ≡ false =
                            subst (λ z. is_in z active ≡ false) (sym q) entered in
                          absurd (ground (arith, off, h))
                      | inr other ↦ ground (arith, other, k.apart x (ground (arith, h)))
                    ];
                    kept =
                        subset-of_members v (name ∷ w)
                          λ x h. ground (arith, is_in-subset x v w k.kept h);
                    visited = ground (arith, bytes_eq_self name);
                  },
                )
          ]
  ]
]

deps_of-is_in :
    (edges : Edges) (x : Text) (deps : List Text)
    → deps_of edges x ≡ ok deps
    → is_in x (names edges) ≡ true
unfolding deps_of
deps_of-is_in [] x deps h = absurd (ground arith)
deps_of-is_in ((key, found) ∷ rest) x deps h = elim (Bool-cases (bytes_eq x key)) [
  | inl same ↦ ground (arith, same)
  | inr other ↦ ground (arith, deps_of-is_in rest x deps (ground (arith, other, h)))
]

Leads-is_in : (edges : Edges) (x y : Text) → Leads edges x y → is_in x (names edges) ≡ true
Leads-is_in edges x y (edge deps e h) = deps_of-is_in edges x deps e
Leads-is_in edges x y (further {y = z} deps before e h) = Leads-is_in edges x z before

-- The walk ends on its fuel, and no name leads to itself, or it raises, and some name does.
pub validate_acyclic_lem :
    (edges : Edges)
    → IsClosed edges
    → (((order : List Text) × (validate_acyclic edges ≡ ok order))
        × ((x : Text) → ¬ Leads edges x x))
      ⊎ ((validate_acyclic edges ≡ err cycle) × (x : Text) × Leads edges x x)
unfolding validate_acyclic Outcome Topo
validate_acyclic_lem edges c =
    let start = visit (suc (length edges)) edges [] in
    elim (each_lem edges [] start [] (names edges)
      (λ x h w.
        visit_lem (suc (length edges)) edges [] w x c h
          (omega (arith, left-le (names edges) [], length-names edges))
          (λ b k. absurd (ground arith)))
      tt (λ x k. absurd (ground arith))) [
        | inr (e, d, k) ↦ inr (e, d, k)
        | inl (w, e, k) ↦ inl (
          (w, e),
          λ x l.
              no_cycle edges x w k.in_order
                (is_in-subset x (names edges) w k.visited (Leads-is_in edges x x l)) l,
        )
      ]
