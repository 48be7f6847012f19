-- ===== src/Budget/Projected.antt =====
-- The projection's running sum is the sum over its entries, and its budget is what is counted anew.
use marimo_export.Prelude.{
  ℕ, true, false, List, [], ◌∷◌, Option, none, some, length, ltb, bytes_eq, ◌≡◌, refl, arith,
  if◌then◌else◌, ok, ◌>>◌, raise_if, raise_if-ok, then-ok, ltb→le, ◌+◌, ◌≤◌, Bool-cases, inl, inr,
  ◌⊎◌, ◌↔◌,
}
use mathlib.Core.Path.{subst, ◌∙◌, sym, ap}
use marimo_export.Format.Texts.{Text, bytes_eq_lem}
use marimo_export.Budget.{
  Cost, total, object_cost, Projection, find_entry, put_entry, digest_member, set_entry, set_each,
  budget_total, projection, minimal_entries, minimal_of, empty_projection, BudgetError, budget,
  require_fits, max_index_values_limit, max_index_bytes_limit, reduction, too_many_values,
  too_many_bytes,
}

abbrev pub members_of : List (Text × Cost) → List Cost
members_of [] = []
members_of ((key, c) ∷ rest) = digest_member c ∷ members_of rest

total-put :
    (key : Text) (c : Cost) (es : List (Text × Cost))
    → ((find_entry key es ≡ none)
        × ((total (members_of (put_entry key c es))).values
            ≡ (total (members_of es)).values + (digest_member c).values)
        × ((total (members_of (put_entry key c es))).bytes
            ≡ (total (members_of es)).bytes + (digest_member c).bytes))
      ⊎ ((d : Cost) × (find_entry key es ≡ some d)
          × ((total (members_of (put_entry key c es))).values + (digest_member d).values
              ≡ (total (members_of es)).values + (digest_member c).values)
          × ((total (members_of (put_entry key c es))).bytes + (digest_member d).bytes
              ≡ (total (members_of es)).bytes + (digest_member c).bytes))
unfolding find_entry put_entry
total-put key c [] = inl (refl, omega arith, omega arith)
total-put key c ((k, d) ∷ es) = elim (Bool-cases (bytes_eq key k)) [
  | inl same ↦ inr (d, rw same refl, rw same (omega arith), rw same (omega arith))
  | inr other ↦ elim (total-put key c es) [
    | inl (e, v, b) ↦ inl (rw other e, rw other (omega (arith, v)), rw other (omega (arith, b)))
    | inr (f, e, v, b) ↦
        inr (f, rw other e, rw other (omega (arith, v)), rw other (omega (arith, b)))
  ]
]

total-find :
    (key : Text) (d : Cost) (es : List (Text × Cost))
    → find_entry key es ≡ some d
    → ((digest_member d).values ≤ (total (members_of es)).values)
      × ((digest_member d).bytes ≤ (total (members_of es)).bytes)
unfolding find_entry
total-find key d [] h = absurd (ground arith)
total-find key d ((k, e) ∷ es) h = elim (Bool-cases (bytes_eq key k)) [
  | inl same ↦
      let f : e ≡ d = some-injective (rw same at h) in
      subst
        (λ z.
          ((digest_member z).values ≤ (total (members_of ((k, e) ∷ es))).values)
          × ((digest_member z).bytes ≤ (total (members_of ((k, e) ∷ es))).bytes))
        f (omega arith, omega arith)
  | inr other ↦
      let (v, b) = total-find key d es (rw other at h) in (omega (arith, v), omega (arith, b))
]
  where
    some-injective : {x y : Cost} → Path (Option Cost) (some x) (some y) → x ≡ y
    some-injective h = cc

unfoldable IsSummed : Projection → Type 0
IsSummed p =
    (p.members.values ≡ (total (members_of p.entries)).values)
    × (p.members.bytes ≡ (total (members_of p.entries)).bytes)

set_entry-IsSummed :
    (key : Text) (c : Cost) (p : Projection) → IsSummed p → IsSummed (set_entry key c p)
unfolding set_entry IsSummed
set_entry-IsSummed key c p (v, b) = elim (total-put key c p.entries) [
  | inl (e, x, y) ↦ (rw e (omega (arith, v, x)), rw e (omega (arith, b, y)))
  | inr (d, e, x, y) ↦
      let (i, j) = total-find key d p.entries e in
      (rw e (omega (arith, v, x, i)), rw e (omega (arith, b, y, j)))
]

set_each-IsSummed :
    (cs : List (Text × Cost)) (p : Projection) → IsSummed p → IsSummed (set_each cs p)
unfolding set_each
set_each-IsSummed [] p h = h
set_each-IsSummed ((key, c) ∷ cs) p h =
    set_each-IsSummed cs (set_entry key c p) (set_entry-IsSummed key c p h)

find-put :
    (key k : Text) (c : Cost) (es : List (Text × Cost))
    → find_entry k (put_entry key c es) ≡ (if bytes_eq k key then some c else find_entry k es)
unfolding find_entry put_entry
find-put key k c [] = refl
find-put key k c ((j, d) ∷ es) = elim (Bool-cases (bytes_eq key j)) [
  | inl same ↦
      let alike : bytes_eq k key ≡ bytes_eq k j = ap (bytes_eq k) ((bytes_eq_lem key j).0 same) in
      rw same (elim (Bool-cases (bytes_eq k j)) [
        | inl here ↦ rw (here, alike ∙ here) refl
        | inr there ↦ rw (there, alike ∙ there) refl
      ])
  | inr other ↦
      rw (other, find-put key k c es)
        (elim (Bool-cases (bytes_eq k j)) [
          | inr there ↦ rw there refl
          | inl here ↦ elim (Bool-cases (bytes_eq k key)) [
            | inr apart ↦ rw (here, apart) refl
            | inl both ↦
                let e = (bytes_eq_lem k j).0 here in
                let f = (bytes_eq_lem k key).0 both in
                let clash : bytes_eq key j ≡ true = (bytes_eq_lem key j).1 (sym f ∙ e) in
                absurd (ground (arith, clash, other))
          ]
        ])
]

-- The cost that was set last for a key.
abbrev pub latest_of : Text → List (Text × Cost) → Option Cost → Option Cost
latest_of k [] before = before
latest_of k ((key, c) ∷ cs) before = latest_of k cs (if bytes_eq k key then some c else before)

find-set_each :
    (k : Text) (cs : List (Text × Cost)) (p : Projection)
    → find_entry k (set_each cs p).entries ≡ latest_of k cs (find_entry k p.entries)
unfolding set_each
find-set_each k [] p = refl
find-set_each k ((key, c) ∷ cs) p =
    find-set_each k cs (set_entry key c p) ∙ ap (latest_of k cs) (find-put key k c p.entries)

set_each-skeleton :
    (cs : List (Text × Cost)) (p : Projection) → (set_each cs p).skeleton ≡ p.skeleton
unfolding set_each
set_each-skeleton [] p = refl
set_each-skeleton ((key, c) ∷ cs) p = set_each-skeleton cs (set_entry key c p)

projection-IsSummed :
    (skeleton : Cost) (outputs : List Cost) (states : List (Text × Cost))
    → IsSummed (projection skeleton outputs states)
unfolding projection IsSummed
projection-IsSummed skeleton outputs states =
    set_each-IsSummed (minimal_entries (minimal_of outputs) states)
      (empty_projection skeleton outputs) (refl, refl)

projection-skeleton :
    (skeleton : Cost) (outputs : List Cost) (states : List (Text × Cost))
    → (projection skeleton outputs states).skeleton ≡ skeleton
unfolding projection
projection-skeleton skeleton outputs states =
    set_each-skeleton (minimal_entries (minimal_of outputs) states)
      (empty_projection skeleton outputs)

unfoldable pub IsWithin : Cost → Projection → Type 0
IsWithin skeleton p =
    (skeleton.values + (object_cost (members_of p.entries)).values ≤ max_index_values_limit + 1)
    × (skeleton.bytes + (object_cost (members_of p.entries)).bytes ≤ max_index_bytes_limit + 2)

length-members_of : (es : List (Text × Cost)) → length (members_of es) ≡ length es
length-members_of [] = refl
length-members_of ((key, c) ∷ es) = omega (arith, length-members_of es)

checks_lem :
    (a b : ℕ) (m n : ℕ) (e f : BudgetError)
    → ((raise_if (ltb m a) e >> raise_if (ltb n b) f) ≡ ok tt) ↔ ((a ≤ m) × (b ≤ n))
checks_lem a b m n e f = (
  λ h. (ltb→le m a (first_check a b m n e f h), ltb→le n b (second_check a b m n e f h)),
  λ (x, y).
      let i : ltb m a ≡ false = ground (arith, x) in
      let j : ltb n b ≡ false = ground (arith, y) in rw (i, j) refl,
)
  where
    first_check :
        (a b : ℕ) (m n : ℕ) (e f : BudgetError)
        → (raise_if (ltb m a) e >> raise_if (ltb n b) f) ≡ ok tt
        → ltb m a ≡ false
    first_check a b m n e f h =
        raise_if-ok (ltb m a) e (then-ok (raise_if (ltb m a) e) (raise_if (ltb n b) f) h).0

    second_check :
        (a b : ℕ) (m n : ℕ) (e f : BudgetError)
        → (raise_if (ltb m a) e >> raise_if (ltb n b) f) ≡ ok tt
        → ltb n b ≡ false
    second_check a b m n e f h =
        raise_if-ok (ltb n b) f (then-ok (raise_if (ltb m a) e) (raise_if (ltb n b) f) h).1

passes_lem :
    (p : Projection)
    → (require_fits p ≡ ok tt) ↔ (
        ((budget_total p).values ≤ max_index_values_limit)
        × ((budget_total p).bytes ≤ max_index_bytes_limit))
unfolding require_fits
passes_lem p =
    checks_lem (budget_total p).values (budget_total p).bytes max_index_values_limit
      max_index_bytes_limit (too_many_values (budget p) (reduction (length p.entries) (budget p)))
      (too_many_bytes (budget p) (reduction (length p.entries) (budget p)))

-- A projection that is built and then measured lets the index through exactly where the cost
-- of the skeleton and that of an object of its entries are together within the two limits,
-- less the one value and the two braces that both of them count; and each of its entries is
-- what was measured last for its state, or else what the projection was built with.
pub require_fits_lem :
    (skeleton : Cost) (outputs : List Cost) (states measured : List (Text × Cost))
    → ((require_fits (set_each measured (projection skeleton outputs states)) ≡ ok tt)
        ↔ IsWithin skeleton (set_each measured (projection skeleton outputs states)))
      × ((k : Text)
          → find_entry k (set_each measured (projection skeleton outputs states)).entries
            ≡ latest_of k measured (find_entry k (projection skeleton outputs states).entries))
unfolding IsWithin IsSummed
require_fits_lem skeleton outputs states measured =
    let q = projection skeleton outputs states in
    let p = set_each measured q in
    let (v, b) = set_each-IsSummed measured q (projection-IsSummed skeleton outputs states) in
    let same = set_each-skeleton measured q ∙ projection-skeleton skeleton outputs states in
    let sv : p.skeleton.values ≡ skeleton.values = ap (λ (c : Cost). c.values) same in
    let sb : p.skeleton.bytes ≡ skeleton.bytes = ap (λ (c : Cost). c.bytes) same in
    let counted = length-members_of p.entries in
    let checks = passes_lem p in
    (
      (
        λ h.
            let x = (checks.0 h).0 in
            let y = (checks.0 h).1 in (omega (arith, x, v, sv), omega (arith, y, b, sb, counted)),
        λ (x, y). checks.1 (omega (arith, x, v, sv), omega (arith, y, b, sb, counted)),
      ),
      λ k. find-set_each k measured q,
    )
