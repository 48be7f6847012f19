-- ===== src/Controls/Owners.antt =====
-- The owner of a control set is the largest set above it, and sets that overlap have one owner.
use marimo_export.Prelude.{
  true, false, List, [], ◌∷◌, length, ◌≡◌, refl, sym, arith, Bool-cases, inl, inr, ◌⊎◌, ◌≤◌, ltb,
}
use mathlib.Core.Path.{subst}
use mathlib.Core.List.{Memᴰ}
use mathlib.Core.List.Memᴰ
use marimo_export.Format.Texts.{Text, is_subset, is_strict, subset_self}
use marimo_export.Controls.{Candidate}
use marimo_export.Controls.Aliases.{longest, supersets, owner_set, control_sets_of}
use marimo_export.Controls.Subsets.{IsDistinct, length-strict, strict-subset}
use marimo_export.Controls.Keys.{of_set}

longest-Memᴰ : (b : List Text) (bs : List (List Text)) → Memᴰ (longest b bs) (b ∷ bs)
unfolding longest
longest-Memᴰ b [] = Memᴰ.head refl
longest-Memᴰ b (c ∷ bs) = elim (Bool-cases (ltb (length b) (length c))) [
  | inl longer ↦ rw longer (Memᴰ.tail (longest-Memᴰ c bs))
  | inr other ↦ rw other (elim (Memᴰ.cases_cons (longest-Memᴰ b bs)) [
    | inl e ↦ Memᴰ.head e
    | inr m ↦ Memᴰ.tail (Memᴰ.tail m)
  ])
]

longest-first : (b : List Text) (bs : List (List Text)) → length b ≤ length (longest b bs)
unfolding longest
longest-first b [] = omega arith
longest-first b (c ∷ bs) = elim (Bool-cases (ltb (length b) (length c))) [
  | inl longer ↦ rw longer (ground (arith, longer, longest-first c bs))
  | inr other ↦ rw other (longest-first b bs)
]

longest-le :
    (b : List Text) (bs : List (List Text)) (k : List Text)
    → Memᴰ k bs
    → length k ≤ length (longest b bs)
unfolding longest
longest-le b [] k m = absurd (Memᴰ.not-nil m)
longest-le b (c ∷ bs) k m = elim (Bool-cases (ltb (length b) (length c))) [
  | inl longer ↦
      rw longer (elim (Memᴰ.cases_cons m) [
        | inl e ↦ rw e (longest-first c bs)
        | inr n ↦ longest-le c bs k n
      ])
  | inr other ↦ rw other (elim (Memᴰ.cases_cons m) [
    | inl e ↦ rw e (ground (arith, other, longest-first b bs))
    | inr n ↦ longest-le b bs k n
  ])
]

Memᴰ-supersets :
    (c k : List Text) (bs : List (List Text))
    → Memᴰ k bs
    → is_strict c k ≡ true
    → Memᴰ k (supersets c bs)
unfolding supersets
Memᴰ-supersets c k [] m h = m
Memᴰ-supersets c k (b ∷ bs) m h = elim (Bool-cases (is_strict c b)) [
  | inl above ↦ rw above (elim (Memᴰ.cases_cons m) [
    | inl e ↦ Memᴰ.head e
    | inr n ↦ Memᴰ.tail (Memᴰ-supersets c k bs n h)
  ])
  | inr other ↦ rw other (elim (Memᴰ.cases_cons m) [
    | inl e ↦
        let above : is_strict c b ≡ true = subst (λ z. is_strict c z ≡ true) e h in
        absurd (ground (arith, above, other))
    | inr n ↦ Memᴰ-supersets c k bs n h
  ])
]

supersets-Memᴰ :
    (c k : List Text) (bs : List (List Text))
    → Memᴰ k (supersets c bs)
    → Memᴰ k bs × (is_strict c k ≡ true)
unfolding supersets
supersets-Memᴰ c k [] m = absurd (Memᴰ.not-nil m)
supersets-Memᴰ c k (b ∷ bs) m = elim (Bool-cases (is_strict c b)) [
  | inl above ↦ elim (Memᴰ.cases_cons (rw above at m)) [
    | inl e ↦ (Memᴰ.head e, rw e above)
    | inr n ↦ let (o, h) = supersets-Memᴰ c k bs n in (Memᴰ.tail o, h)
  ]
  | inr other ↦ let (o, h) = supersets-Memᴰ c k bs (rw other at m) in (Memᴰ.tail o, h)
]

-- What `max(supersets, key=len) if supersets else controls` is.
pub record IsOwner (control_sets : List (List Text)) (c o : List Text) : Type 0 where
  pub above : is_subset c o ≡ true
  pub known : (o ≡ c) ⊎ Memᴰ o control_sets
  pub largest : (k : List Text) → Memᴰ k control_sets → is_strict o k ≡ true → length k ≤ length o

owner_set-IsOwner :
    (sets : List (List Text)) (c : List Text) (found : List (List Text))
    → supersets c sets ≡ found
    → IsOwner sets c (owner_set sets c)
unfolding owner_set
owner_set-IsOwner sets c [] e = rw e record {
  above = subset_self c;
  known = inl refl;
  largest = λ k m h. absurd (Memᴰ.not-nil (rw e at (Memᴰ-supersets c k sets m h)));
}
owner_set-IsOwner sets c (b ∷ bs) e =
    let (m, h) = supersets-Memᴰ c (longest b bs) sets (rw e (longest-Memᴰ b bs)) in
    let inside : is_subset c (longest b bs) ≡ true = ground (arith, h) in
    rw e record {
      above = inside;
      known = inr m;
      largest = λ k n g.
          let beyond = strict-subset c (longest b bs) k inside g in
          elim (Memᴰ.cases_cons (rw e at (Memᴰ-supersets c k sets n beyond))) [
            | inl f ↦ rw f (longest-first b bs)
            | inr o ↦ longest-le b bs k o
          ];
    }

pub owner_lem : (sets : List (List Text)) (c : List Text) → IsOwner sets c (owner_set sets c)
owner_lem sets c = owner_set-IsOwner sets c (supersets c sets) refl

unfoldable pub IsSound : List Candidate → Type 0
IsSound cs = (c : Candidate) → Memᴰ c cs → IsDistinct c.control_ids

-- No set of a candidate is strictly above an owner.
pub owner-maximal :
    (cs : List Candidate) (c : Candidate) (o k : List Text)
    → IsSound cs
    → Memᴰ c cs
    → IsOwner (control_sets_of cs) c.control_ids o
    → Memᴰ k (control_sets_of cs)
    → is_strict o k ≡ false
unfolding IsSound
owner-maximal cs c o k s m w n = elim (Bool-cases (is_strict o k)) [
  | inr fine ↦ fine
  | inl beyond ↦
      let distinct : IsDistinct o = elim w.known [
        | inl e ↦ rw e (s c m)
        | inr there ↦ let (d, l, e) = of_set cs o there in subst (λ z. IsDistinct z) (sym e) (s d l)
      ] in
      absurd (omega (arith, w.largest k n beyond, length-strict o k distinct beyond))
]
