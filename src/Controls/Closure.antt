-- ===== src/Controls/Closure.antt =====
-- The worklist of `_dependency_closure`: it ends, and what it returns.
use marimo_export.Prelude.{
  ℕ, zero, suc, true, ◌||◌, List, [], ◌∷◌, length, ◌≡◌, ◌↔◌, refl, arith, ok, bytes_eq, Bool-cases,
  inl, inr, ◌≤◌, ◌<◌, ◌+◌,
}
use mathlib.Core.Path.{subst}
use marimo_export.Format.Texts.{
  Text, is_in, is_subset, minus, bytes_eq_lem, is_in-minus, is_in-subset, subset-of_members,
  subset_self, subset_trans, bytes_eq_self,
}
use marimo_export.Controls.{Edges, names, deps_of, extend, close_loop, dependency_closure}
use marimo_export.Controls.Paths.{
  Reached, chosen, onward, IsClosed, deps_of-name, length-names, left, left-cons,
}

is_in-extend : (x : Text) (ys xs : List Text) → is_in x (extend ys xs) ≡ (is_in x ys || is_in x xs)
is_in-extend x [] xs = refl
is_in-extend x (y ∷ ys) xs = ground (arith, is_in-extend x ys (y ∷ xs))

length-extend : (ys xs : List Text) → length (extend ys xs) ≡ length ys + length xs
length-extend [] xs = omega arith
length-extend (y ∷ ys) xs = omega (arith, length-extend ys (y ∷ xs))

-- What is new is counted once.
left-extend :
    (ks deps xs : List Text)
    → is_subset deps ks ≡ true
    → left ks (extend (minus deps xs) xs) + length (minus deps xs) ≤ left ks xs
unfolding minus
left-extend ks [] xs h = omega arith
left-extend ks (y ∷ deps) xs h = elim (Bool-cases (is_in y xs)) [
  | inl inside ↦ ground (arith, inside, left-extend ks deps xs (ground (arith, h)))
  | inr out ↦ ground (
    arith,
    out,
    left-extend ks deps (y ∷ xs) (ground (arith, h)),
    left-cons ks xs y (ground (arith, h)) out,
  )
]

-- Every element of `xs` waits or has its dependencies in `xs`.
abbrev IsSettled : Edges → List Text → List Text → Type 0
IsSettled edges xs pending =
    (x : Text) (deps : List Text)
    → is_in x xs ≡ true
    → deps_of edges x ≡ ok deps
    → (is_in x pending || is_subset deps xs) ≡ true

module _ (edges : Edges) (deps xs : List Text) where
  abbrev fresh : List Text
  fresh = minus deps xs

  extend-covers : is_subset deps (extend fresh xs) ≡ true
  extend-covers =
      subset-of_members deps (extend fresh xs)
        λ x m. ground (arith, m, is_in-extend x fresh xs, is_in-minus x deps xs)

  extend-grows : (zs : List Text) → is_subset zs xs ≡ true → is_subset zs (extend fresh xs) ≡ true
  extend-grows zs h =
      subset-of_members zs (extend fresh xs)
        λ x m. ground (arith, is_in-extend x fresh xs, is_in-subset x zs xs h m)

  extend-subset :
      is_subset xs (names edges) ≡ true
      → is_subset deps (names edges) ≡ true
      → is_subset (extend fresh xs) (names edges) ≡ true
  extend-subset h k = subset-of_members (extend fresh xs) (names edges) λ x m.
      elim (Bool-cases (is_in x xs)) [
        | inl old ↦ is_in-subset x xs (names edges) h old
        | inr new ↦
            is_in-subset x deps (names edges) k
              (ground (arith, m, new, is_in-extend x fresh xs, is_in-minus x deps xs))
      ]

  extend-IsSettled :
      (name : Text) (pending : List Text)
      → deps_of edges name ≡ ok deps
      → IsSettled edges xs (name ∷ pending)
      → IsSettled edges (extend fresh xs) (extend fresh pending)
  extend-IsSettled name pending found h x ds m e = elim (Bool-cases (is_in x xs)) [
    | inr new ↦ ground (arith, m, new, is_in-extend x fresh xs, is_in-extend x fresh pending)
    | inl old ↦ elim (Bool-cases (bytes_eq x name)) [
      | inl same ↦
          let alike = (bytes_eq_lem x name).0 same in
          let covered : is_subset ds (extend fresh xs) ≡ true =
            subst (λ zs. is_subset zs (extend fresh xs) ≡ true) (cc) extend-covers in
          ground (arith, covered)
      | inr other ↦ elim (Bool-cases (is_in x pending)) [
        | inl waits ↦ ground (arith, waits, is_in-extend x fresh pending)
        | inr done ↦ ground (arith, extend-grows ds (ground (arith, other, done, h x ds old e)))
      ]
    ]
  ]

  extend-Reached :
      (name : Text) (selected : List Text)
      → deps_of edges name ≡ ok deps
      → Reached edges selected name
      → ((x : Text) → is_in x xs ≡ true → Reached edges selected x)
      → (x : Text) → is_in x (extend fresh xs) ≡ true
      → Reached edges selected x
  extend-Reached name selected found r h x m = elim (Bool-cases (is_in x xs)) [
    | inl old ↦ h x old
    | inr new ↦
        onward deps r found (ground (arith, m, new, is_in-extend x fresh xs, is_in-minus x deps xs))
  ]

-- The loop ends where it has fuel for each name that waits or is not yet in the set, with a set
-- that contains the first one, that the dependencies do not leave and that they reach.
record Closes (edges : Edges) (selected xs r : List Text) : Type 0 where
  all_kept : is_subset xs r ≡ true
  none_missing :
      (x : Text) (deps : List Text)
      → is_in x r ≡ true
      → deps_of edges x ≡ ok deps
      → is_subset deps r ≡ true
  none_strange : (x : Text) → is_in x r ≡ true → Reached edges selected x

close_loop_lem :
    (n : ℕ) (edges : Edges) (selected xs pending : List Text)
    → IsClosed edges
    → is_subset xs (names edges) ≡ true
    → is_subset pending (names edges) ≡ true
    → length pending + left (names edges) xs < n
    → IsSettled edges xs pending
    → ((x : Text) → is_in x xs ≡ true → Reached edges selected x)
    → ((x : Text) → is_in x pending ≡ true → Reached edges selected x)
    → (r : List Text) × (close_loop n edges xs pending ≡ ok r) × Closes edges selected xs r
unfolding close_loop
close_loop_lem zero edges selected xs pending c h p f s k l = absurd (omega arith)
close_loop_lem (suc n) edges selected xs [] c h p f s k l = (
  xs,
  refl,
  record {
    all_kept = subset_self xs;
    none_missing = λ x deps m e. ground (arith, s x deps m e);
    none_strange = k;
  },
)
close_loop_lem (suc n) edges selected xs (name ∷ pending) c h p f s k l =
    let (deps, found) = deps_of-name edges name (ground (arith, p)) in
    let new = minus deps xs in
    let inside = c name deps found in
    let reach = l name (ground (arith, bytes_eq_self name)) in
    let reached = extend-Reached edges deps xs name selected found reach k in
    let (r, e, w) =
      close_loop_lem n edges selected (extend (minus deps xs) xs) (extend (minus deps xs) pending) c
        (extend-subset edges deps xs h inside)
        (subset-of_members (extend (minus deps xs) pending) (names edges) λ x m.
          elim (Bool-cases (is_in x pending)) [
            | inl old ↦ is_in-subset x pending (names edges) (ground (arith, p)) old
            | inr fresh ↦ is_in-subset x deps (names edges) inside (
                ground
                  (arith, m, fresh, is_in-extend x (minus deps xs) pending, is_in-minus x deps xs))
          ])
        (ground (
          arith,
          f,
          length-extend (minus deps xs) pending,
          left-extend (names edges) deps xs inside,
        ))
        (extend-IsSettled edges deps xs name pending found s) reached
        (λ x m. elim (Bool-cases (is_in x pending)) [
          | inl old ↦ l x (ground (arith, old))
          | inr fresh ↦ onward deps reach found (
              ground
                (arith, m, fresh, is_in-extend x (minus deps xs) pending, is_in-minus x deps xs))
        ]) in
    (
      r,
      rw found e,
      record {
        all_kept =
            subset_trans xs (extend (minus deps xs) xs) r
              (extend-grows edges deps xs xs (subset_self xs)) w.all_kept;
        none_missing = w.none_missing;
        none_strange = w.none_strange;
      },
    )

left-same :
    (ks xs ys : List Text) → ((x : Text) → is_in x xs ≡ is_in x ys) → left ks xs ≡ left ks ys
unfolding left
left-same [] xs ys h = refl
left-same (k ∷ ks) xs ys h = rw (h k, left-same ks xs ys h) refl

left-nil : (ks : List Text) → left ks [] ≡ length ks
unfolding left
left-nil [] = refl
left-nil (k ∷ ks) = omega (arith, left-nil ks)

is_in-closed :
    (edges : Edges) (selected xs r : List Text)
    → Closes edges selected xs r
    → ((x : Text) → is_in x selected ≡ true → is_in x xs ≡ true)
    → (x : Text) → Reached edges selected x
    → is_in x r ≡ true
is_in-closed edges selected xs r w h x (chosen m) = is_in-subset x xs r w.all_kept (h x m)
is_in-closed edges selected xs r w h x (onward {y} deps before e m) =
    is_in-subset x deps r (w.none_missing y deps (is_in-closed edges selected xs r w h y before) e)
      m

-- The worklist ends on its fuel, and it returns the names that the chosen ones reach through the
-- dependencies and no other, wherever the dependencies and the chosen names are names of the dict.
pub dependency_closure_lem :
    (edges : Edges) (relevant : List Text)
    → IsClosed edges
    → is_subset relevant (names edges) ≡ true
    → (r : List Text) × (dependency_closure (minus relevant []) edges ≡ ok r)
      × ((x : Text) → (is_in x r ≡ true) ↔ Reached edges relevant x)
unfolding dependency_closure
dependency_closure_lem edges relevant c h =
    let selected = minus relevant [] in
    let member = λ (x : Text). is_in-minus x relevant [] in
    let taken : (x : Text) → is_in x selected ≡ true → is_in x relevant ≡ true =
      λ x m. ground (arith, m, member x) in
    let inside : is_subset selected (names edges) ≡ true =
      subset-of_members selected (names edges)
        λ x m. is_in-subset x relevant (names edges) h (taken x m) in
    let counted =
      left-same (names edges) (extend selected []) selected
        λ x. ground (arith, is_in-extend x selected []) in
    let (r, e, w) =
      close_loop_lem (suc (length edges)) edges relevant selected selected c inside inside
        (omega (
          arith,
          counted,
          left-extend (names edges) relevant [] h,
          left-nil (names edges),
          length-names edges,
        ))
        (λ x deps m k. ground (arith, m)) (λ x m. chosen (taken x m)) (λ x m. chosen (taken x m)) in
    (
      r,
      e,
      λ x. (
        w.none_strange x,
        is_in-closed edges relevant selected r w (λ y m. ground (arith, m, member y)) x,
      ),
    )
