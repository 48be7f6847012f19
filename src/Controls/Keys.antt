-- ===== src/Controls/Keys.antt =====
-- The keys of `equal_sets` are the candidates' sets, and two that passed the check are nested or apart.
use marimo_export.Prelude.{
  true, false, List, [], ◌∷◌, any, ◌≡◌, refl, sym, arith, Bool-cases, inl, inr, ◌⊎◌, ok, raise_if,
  then-ok, raise_if-ok,
}
use mathlib.Core.Path.{◌∙◌}
use mathlib.Core.List.{Memᴰ}
use mathlib.Core.List.Memᴰ
use marimo_export.Format.Texts.{Text, is_same}
use marimo_export.Controls.{overlap, Candidate}
use marimo_export.Controls.Aliases.{
  key_lt, insert_set, sort_sets, keys_after, group_name, clashes, check_against, check_pairs,
  control_sets_of,
}
use marimo_export.Controls.Subsets.{same_self}

Memᴰ-insert_set :
    (a b : List Text) (bs : List (List Text)) → Memᴰ a (b ∷ bs) → Memᴰ a (insert_set b bs)
unfolding insert_set
Memᴰ-insert_set a b [] m = m
Memᴰ-insert_set a b (c ∷ bs) m = elim (Bool-cases (key_lt c b)) [
  | inr first ↦ rw first m
  | inl later ↦ rw later (elim (Memᴰ.cases_cons m) [
    | inl e ↦ Memᴰ.tail (Memᴰ-insert_set a b bs (Memᴰ.head e))
    | inr n ↦ elim (Memᴰ.cases_cons n) [
      | inl e ↦ Memᴰ.head e
      | inr o ↦ Memᴰ.tail (Memᴰ-insert_set a b bs (Memᴰ.tail o))
    ]
  ])
]

Memᴰ-sort_sets : (a : List Text) (bs : List (List Text)) → Memᴰ a bs → Memᴰ a (sort_sets bs)
unfolding sort_sets
Memᴰ-sort_sets a [] m = m
Memᴰ-sort_sets a (b ∷ bs) m =
    Memᴰ-insert_set a b (sort_sets bs)
      (elim (Memᴰ.cases_cons m) [ inl e ↦ Memᴰ.head e | inr n ↦ Memᴰ.tail (Memᴰ-sort_sets a bs n) ])

insert_set-Memᴰ :
    (a b : List Text) (bs : List (List Text)) → Memᴰ a (insert_set b bs) → Memᴰ a (b ∷ bs)
unfolding insert_set
insert_set-Memᴰ a b [] m = m
insert_set-Memᴰ a b (c ∷ bs) m = elim (Bool-cases (key_lt c b)) [
  | inr first ↦ rw first at m
  | inl later ↦ elim (Memᴰ.cases_cons (rw later at m)) [
    | inl e ↦ Memᴰ.tail (Memᴰ.head e)
    | inr n ↦ elim (Memᴰ.cases_cons (insert_set-Memᴰ a b bs n)) [
      | inl e ↦ Memᴰ.head e
      | inr o ↦ Memᴰ.tail (Memᴰ.tail o)
    ]
  ]
]

sort_sets-Memᴰ : (a : List Text) (bs : List (List Text)) → Memᴰ a (sort_sets bs) → Memᴰ a bs
unfolding sort_sets
sort_sets-Memᴰ a [] m = m
sort_sets-Memᴰ a (b ∷ bs) m = elim (Memᴰ.cases_cons (insert_set-Memᴰ a b (sort_sets bs) m)) [
  | inl e ↦ Memᴰ.head e
  | inr n ↦ Memᴰ.tail (sort_sets-Memᴰ a bs n)
]

-- Each candidate's set is a key, up to order, and each key is a candidate's set.
any_same :
    (a : List Text) (seen : List (List Text))
    → any (is_same a) seen ≡ true
    → (k : List Text) × Memᴰ k seen × (is_same a k ≡ true)
any_same a [] h = absurd (ground arith)
any_same a (b ∷ seen) h = elim (Bool-cases (is_same a b)) [
  | inl same ↦ (b, Memᴰ.head refl, same)
  | inr other ↦ let (k, m, e) = any_same a seen (ground (arith, other, h)) in (k, Memᴰ.tail m, e)
]

key_of :
    (seen : List (List Text)) (cs : List Candidate) (c : Candidate)
    → Memᴰ c cs
    → (k : List Text) × (Memᴰ k seen ⊎ Memᴰ k (keys_after seen cs))
      × (is_same c.control_ids k ≡ true)
unfolding keys_after
key_of seen [] c m = absurd (Memᴰ.not-nil m)
key_of seen (d ∷ cs) c m = elim (Bool-cases (any (is_same d.control_ids) seen)) [
  | inl known ↦ elim (Memᴰ.cases_cons m) [
    | inl e ↦ let (k, n, same) = any_same d.control_ids seen known in (k, inl n, rw e same)
    | inr n ↦ rw known (key_of seen cs c n)
  ]
  | inr new ↦ elim (Memᴰ.cases_cons m) [
    | inl e ↦ (d.control_ids, inr (rw new (Memᴰ.head refl)), rw e (same_self d.control_ids))
    | inr n ↦
        let (k, where_, same) = key_of (d.control_ids ∷ seen) cs c n in
        (
          k,
          elim where_ [
            | inr later ↦ inr (rw new (Memᴰ.tail later))
            | inl before ↦ elim (Memᴰ.cases_cons before) [
              | inl e ↦ inr (rw new (Memᴰ.head e))
              | inr older ↦ inl older
            ]
          ],
          same,
        )
  ]
]

of_key :
    (seen : List (List Text)) (cs : List Candidate) (k : List Text)
    → Memᴰ k (keys_after seen cs)
    → (c : Candidate) × Memᴰ c cs × (k ≡ c.control_ids)
unfolding keys_after
of_key seen [] k m = absurd (Memᴰ.not-nil m)
of_key seen (d ∷ cs) k m = elim (Bool-cases (any (is_same d.control_ids) seen)) [
  | inl known ↦ let (c, n, e) = of_key seen cs k (rw known at m) in (c, Memᴰ.tail n, e)
  | inr new ↦ elim (Memᴰ.cases_cons (rw new at m)) [
    | inl e ↦ (d, Memᴰ.head refl, e)
    | inr n ↦ let (c, o, e) = of_key (d.control_ids ∷ seen) cs k n in (c, Memᴰ.tail o, e)
  ]
]

pub set_of :
    (cs : List Candidate) (c : Candidate)
    → Memᴰ c cs
    → (k : List Text) × Memᴰ k (control_sets_of cs) × (is_same c.control_ids k ≡ true)
unfolding control_sets_of
set_of cs c m =
    let (k, n, same) = key_of [] cs c m in
    (
      k,
      elim n [
        | inl nowhere ↦ absurd (Memᴰ.not-nil nowhere)
        | inr there ↦ Memᴰ-sort_sets k (keys_after [] cs) there
      ],
      same,
    )

pub of_set :
    (cs : List Candidate) (k : List Text)
    → Memᴰ k (control_sets_of cs)
    → (c : Candidate) × Memᴰ c cs × (k ≡ c.control_ids)
unfolding control_sets_of
of_set cs k m = of_key [] cs k (sort_sets-Memᴰ k (keys_after [] cs) m)

-- Two sets that passed the check are one, or nested, or apart.
check_against-Memᴰ :
    (cs : List Candidate) (a b : List Text) (bs : List (List Text))
    → check_against cs a bs ≡ ok tt
    → Memᴰ b bs
    → clashes a b ≡ false
unfolding check_against
check_against-Memᴰ cs a b [] h m = absurd (Memᴰ.not-nil m)
check_against-Memᴰ cs a b (c ∷ bs) h m =
    let clash = overlap (group_name cs a) (group_name cs c) in
    let (first, rest) = then-ok (raise_if (clashes a c) clash) (check_against cs a bs) h in
    elim (Memᴰ.cases_cons m) [
      | inl e ↦ rw e (raise_if-ok (clashes a c) clash first)
      | inr n ↦ check_against-Memᴰ cs a b bs rest n
    ]

pub check_pairs-Memᴰ :
    (cs : List Candidate) (bs : List (List Text)) (a b : List Text)
    → check_pairs cs bs ≡ ok tt
    → Memᴰ a bs
    → Memᴰ b bs
    → (a ≡ b) ⊎ ((clashes a b ≡ false) ⊎ (clashes b a ≡ false))
unfolding check_pairs
check_pairs-Memᴰ cs [] a b h m n = absurd (Memᴰ.not-nil m)
check_pairs-Memᴰ cs (c ∷ bs) a b h m n =
    let (first, rest) = then-ok (check_against cs c bs) (check_pairs cs bs) h in
    elim (Memᴰ.cases_cons m) [
      | inl e ↦ elim (Memᴰ.cases_cons n) [
        | inl f ↦ inl (e ∙ sym f)
        | inr o ↦ inr (inl (rw e (check_against-Memᴰ cs c b bs first o)))
      ]
      | inr k ↦ elim (Memᴰ.cases_cons n) [
        | inl f ↦ inr (inr (rw f (check_against-Memᴰ cs c a bs first k)))
        | inr o ↦ check_pairs-Memᴰ cs bs a b rest k o
      ]
    ]
