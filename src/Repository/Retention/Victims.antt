-- ===== src/Repository/Retention/Victims.antt =====
-- The victims of `retention_candidates`, the leases and the pins.
use marimo_export.Prelude.{
  Bool, true, false, Option, none, some, List, [], ◌∷◌, ◌++◌, all, ◌≡◌, refl, sym, arith, Result,
  ok, err, Bool-cases, inl, inr, ◌⊎◌,
}
use mathlib.Core.Path.{subst}
use marimo_export.Repository.Retention.{
  Key, ArtifactRow, key_of, has, is_key, find_row, Retained, not_kept, pinned, join_pins, join_pin,
  Kind, Lease, Catalog, Candidate, RetentionLimits, RetentionError, generation, state,
}
use marimo_export.Repository.Retention.Selection.{RetentionVictims, retention_candidates, rows_of}
use marimo_export.Repository.Retention.Pins.{is_key_eq, is_key_self}
use marimo_export.Repository.Retention.Leased.{is_protected, kept_of, find_row_key}
use marimo_export.Repository.Retention.Sound.{is_linked}
use marimo_export.Repository.Retention.Selected.{Selected, retained_lem}

kept_is_no_victim :
    (k : Key) (xs kept : List ArtifactRow) → has k kept ≡ true → has k (not_kept xs kept) ≡ false
unfolding not_kept
kept_is_no_victim k [] kept h = refl
kept_is_no_victim k (x ∷ xs) kept h = elim (Bool-cases (has (key_of x) kept)) [
  | inl known ↦ rw known (kept_is_no_victim k xs kept h)
  | inr new ↦ elim (Bool-cases (is_key (key_of x) k)) [
    | inl same ↦ absurd (
        let e : has (key_of x) kept ≡ true =
          subst (λ l. has l kept ≡ true) (sym (is_key_eq (key_of x) k same)) h in
        ground (arith, e, new))
    | inr other ↦ rw new (ground (arith, other, kept_is_no_victim k xs kept h))
  ]
]

survivor_is_kept :
    (k : Key) (xs kept : List ArtifactRow)
    → has k xs ≡ true
    → has k (not_kept xs kept) ≡ false
    → has k kept ≡ true
unfolding not_kept
survivor_is_kept k [] kept h n = absurd (ground arith)
survivor_is_kept k (x ∷ xs) kept h n = elim (Bool-cases (has (key_of x) kept)) [
  | inl known ↦ elim (Bool-cases (is_key (key_of x) k)) [
    | inl same ↦ subst (λ l. has l kept ≡ true) (is_key_eq (key_of x) k same) known
    | inr other ↦ survivor_is_kept k xs kept (ground (arith, other)) (ground (arith, known))
  ]
  | inr new ↦ survivor_is_kept k xs kept (ground (arith, new)) (ground (arith, new))
]

abbrev pub victims_of : Kind → RetentionVictims → List ArtifactRow
victims_of generation v = v.generations
victims_of state v = v.states

protected_survives :
    (c : Catalog) (r : Retained) (lease : Lease) {row : ArtifactRow}
    → find_row lease.artifact (rows_of lease.kind c) ≡ some row
    → is_protected c r lease ≡ true
    → has lease.artifact (kept_of lease.kind r) ≡ true
protected_survives c r lease found h = ground (arith, found)

all_inside :
    {A : Type 0} (p : A → Bool) (before : List A) (x : A) (after : List A)
    → all p (before ++ x ∷ after) ≡ true
    → p x ≡ true
all_inside p [] x after h = ground arith
all_inside p (y ∷ before) x after h = all_inside p before x after (ground arith)

all_at :
    {A : Type 0} (p : A → Bool) (before : List A) (x : A) (after xs : List A)
    → xs ≡ before ++ x ∷ after
    → all p xs ≡ true
    → p x ≡ true
all_at p before x after xs split h =
    all_inside p before x after (subst (λ ys. all p ys ≡ true) split h)

join_pin-eq-ok :
    (g : Key) (o : Option ArtifactRow) (m : Result RetentionError (List (Key × ArtifactRow)))
    {joined : List (Key × ArtifactRow)}
    → join_pin g o m ≡ ok joined
    → (row : ArtifactRow) × (rest : List (Key × ArtifactRow)) × (o ≡ some row)
      × (m ≡ ok rest)
      × (joined ≡ (g, row) ∷ rest)
unfolding join_pin
join_pin-eq-ok g none m h = absurd (ground arith)
join_pin-eq-ok g (some row) (err e) h = absurd (ground arith)
join_pin-eq-ok g (some row) (ok rest) h = (row, rest, refl, refl, ground arith)

pinned-has :
    (before after : List (Key × Key)) (g s : Key) (rows : List ArtifactRow)
    (joined : List (Key × ArtifactRow))
    → join_pins (before ++ (g, s) ∷ after) rows ≡ ok joined
    → has s (pinned joined g) ≡ true
unfolding join_pins pinned
pinned-has [] after g s rows joined h =
    let (row, rest, found, _, e) = join_pin-eq-ok g (find_row s rows) (join_pins after rows) h in
    subst (λ ps. has s (pinned ps g) ≡ true) (sym e)
      (ground (arith, is_key_self g, find_row_key s rows row found))
pinned-has ((g', s') ∷ before) after g s rows joined h =
    let (row, rest, _, ran, e) =
      join_pin-eq-ok g' (find_row s' rows) (join_pins (before ++ (g, s) ∷ after) rows) h in
    subst (λ ps. has s (pinned ps g) ≡ true) (sym e)
      (ground (arith, pinned-has before after g s rows rest ran))

-- The test that `all` makes of the rows holds of a key that one of them has.
all_of_has :
    (test : Key → Bool) (k : Key) (xs : List ArtifactRow)
    → has k xs ≡ true
    → all (λ x. test (key_of x)) xs ≡ true
    → test k ≡ true
all_of_has test k [] h t = absurd (ground arith)
all_of_has test k (x ∷ xs) h t = elim (Bool-cases (is_key (key_of x) k)) [
  | inl same ↦ subst (λ l. test l ≡ true) (is_key_eq (key_of x) k same) (ground arith)
  | inr other ↦ all_of_has test k xs (ground (arith, other)) (ground arith)
]

module _ (limits : RetentionLimits) (candidate : Option Candidate) (c : Catalog) where
  victims_from_kept : Retained → RetentionVictims
  victims_from_kept r = record {
    states = not_kept c.states r.states;
    generations = not_kept c.generations r.generations;
  }

  no_victim_of :
      (kind : Kind) (k : Key) (r : Retained)
      → has k (kept_of kind r) ≡ true
      → has k (victims_of kind (victims_from_kept r)) ≡ false
  unfolding victims_from_kept
  no_victim_of generation k r h = kept_is_no_victim k c.generations r.generations h
  no_victim_of state k r h = kept_is_no_victim k c.states r.states h

  selected_victims :
      (s : Selected limits candidate c)
      → retention_candidates limits candidate c ≡ ok (victims_from_kept s.result)
  unfolding retention_candidates victims_from_kept
  selected_victims s = rw s.returns refl

  -- Over a catalog without dangling references the victims are found, and no row that a lease
  -- holds is among them.
  pub leased_is_no_victim :
      (before after : List Lease) (lease : Lease) {row : ArtifactRow}
      → is_linked c ≡ true
      → c.leases ≡ before ++ lease ∷ after
      → find_row lease.artifact (rows_of lease.kind c) ≡ some row
      → (v : RetentionVictims) × (retention_candidates limits candidate c ≡ ok v)
        × (has lease.artifact (victims_of lease.kind v) ≡ false)
  leased_is_no_victim before after lease linked split found =
      let s = retained_lem limits candidate c linked in
      (
        victims_from_kept s.result,
        selected_victims s,
        no_victim_of lease.kind lease.artifact s.result (
            protected_survives c s.result lease found (
              all_at (is_protected c s.result) before lease after c.leases split
                s.result_safe.leases_kept)),
      )

  -- Over a catalog without dangling references the victims are found, and a state that a
  -- generation of the catalog pins is among them only where that generation is too.
  pub pinned_is_no_victim :
      (before after : List (Key × Key)) (g s : Key)
      → is_linked c ≡ true
      → c.pins ≡ before ++ (g, s) ∷ after
      → has g c.generations ≡ true
      → (v : RetentionVictims) × (retention_candidates limits candidate c ≡ ok v)
        × ((has g v.generations ≡ true) ⊎ (has s v.states ≡ false))
  unfolding victims_from_kept
  pinned_is_no_victim before after g s linked split present =
      let sel = retained_lem limits candidate c linked in
      let r = sel.result in
      (
        victims_from_kept r,
        selected_victims sel,
        elim (Bool-cases (has g (not_kept c.generations r.generations))) [
          | inl victim ↦ inl victim
          | inr survives ↦
              let holds = survivor_is_kept g c.generations r.generations present survives in
              let states_kept =
                all_of_has (λ k. all (λ x. has (key_of x) r.states) (pinned sel.pins k)) g
                  r.generations holds sel.result_safe.kept.pins_kept in
              let joins = subst (λ ps. join_pins ps c.states ≡ ok sel.pins) split sel.joins in
              let kept =
                all_of_has (λ k. has k r.states) s (pinned sel.pins g)
                  (pinned-has before after g s c.states sel.pins joins) states_kept in
              inr (kept_is_no_victim s c.states r.states kept)
        ],
      )
