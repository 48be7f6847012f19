-- ===== src/Controls/Unique.antt =====
-- The name that `_control_set_aliases` gives to a candidate: that of the one owner of its controls.
use marimo_export.Prelude.{
  Bool, true, false, List, [], ◌∷◌, ◌≡◌, refl, ap, arith, Bool-cases, inl, inr, ok, then-ok,
  raise_if, raise_if-ok, some, bytes_eq,
}
use mathlib.Core.Path.{subst, ◌∙◌}
use mathlib.Core.List.{Memᴰ}
use mathlib.Core.List.Memᴰ
use marimo_export.Format.Texts.{
  Text, is_in, is_subset, is_strict, is_same, overlaps, subset_trans, sorted_set, bytes_eq_self,
}
use marimo_export.Controls.{Candidate, duplicated, check_candidate, texts_eq}
use marimo_export.Controls.Aliases.{
  Aliases, group_name, first_name, check_pairs, owner_set, control_sets_of, alias_each,
  control_set_aliases,
}
use marimo_export.Controls.Select.{check_names, alias_of}
use marimo_export.Controls.Subsets.{
  IsDistinct, overlaps-subset, strict-subset, strict-same, same_cong,
}
use marimo_export.Controls.Sorted.{sorted-IsDistinct}
use marimo_export.Controls.Keys.{set_of}
use marimo_export.Controls.Owners.{owner_lem, IsSound, owner-maximal}
use marimo_export.Controls.Groups.{
  owner_of, candidate_of, IsNamed, group_name-IsNamed, nested, group_cong,
}

record IsPlaced (cs : List Candidate) (c : Candidate) (k : List Text) : Type 0 where
  listed : Memᴰ k (control_sets_of cs)
  same : is_same (owner_of cs c) k ≡ true
  covers : is_subset c.control_ids k ≡ true
  highest : (l : List Text) → Memᴰ l (control_sets_of cs) → is_strict k l ≡ false

placed :
    (cs : List Candidate) (c : Candidate)
    → IsSound cs
    → Memᴰ c cs
    → (k : List Text) × IsPlaced cs c k
unfolding owner_of owner_set
placed cs c s m =
    let o = owner_of cs c in
    let w = owner_lem (control_sets_of cs) c.control_ids in
    let (d, n, h) = candidate_of cs c o m w in
    let (k, there, g) = set_of cs d n in
    let alike : is_same o k ≡ true = same_cong o d.control_ids k h ∙ g in
    (
      k,
      record {
        listed = there;
        same = alike;
        covers = subset_trans c.control_ids o k w.above (ground (arith, alike));
        highest = λ l i. elim (Bool-cases (is_strict k l)) [
          | inr fine ↦ fine
          | inl beyond ↦
              let past = strict-subset o k l (ground (arith, alike)) beyond in
              absurd (ground (arith, past, owner-maximal cs c o l s m w i))
        ];
      },
    )

same_owner :
    (cs : List Candidate) (p q : Candidate)
    → IsSound cs
    → check_pairs cs (control_sets_of cs) ≡ ok tt
    → Memᴰ p cs
    → Memᴰ q cs
    → overlaps p.control_ids q.control_ids ≡ true
    → is_same (owner_of cs q) (owner_of cs p) ≡ true
same_owner cs p q s h m n meets =
    let (k, a) = placed cs p s m in
    let (l, b) = placed cs q s n in
    let together = overlaps-subset p.control_ids q.control_ids k l meets a.covers b.covers in
    let e =
      nested cs k l h a.listed b.listed together (a.highest l b.listed) (b.highest k a.listed) in
    let through = same_cong (owner_of cs q) l (owner_of cs p) b.same in
    let back : is_same l (owner_of cs p) ≡ true =
      subst (λ z. is_same z (owner_of cs p) ≡ true) e (ground (arith, a.same)) in
    through ∙ back

names_apart :
    (seen : List Text) (cs : List Candidate) (c : Candidate)
    → check_names seen cs ≡ ok tt
    → Memᴰ c cs
    → is_in c.name seen ≡ false
unfolding check_names
names_apart seen [] c h m = absurd (Memᴰ.not-nil m)
names_apart seen (d ∷ cs) c h m =
    let (first, rest) =
      then-ok (raise_if (is_in d.name seen) (duplicated d.name)) (check_names (d.name ∷ seen) cs)
        h in
    elim (Memᴰ.cases_cons m) [
      | inl e ↦ rw e (raise_if-ok (is_in d.name seen) (duplicated d.name) first)
      | inr n ↦ ground (arith, names_apart (d.name ∷ seen) cs c rest n)
    ]

alias_of-each :
    (seen : List Text) (all_of : List Candidate) (sets : List (List Text)) (cs : List Candidate)
    (c : Candidate)
    → check_names seen cs ≡ ok tt
    → Memᴰ c cs
    → alias_of (alias_each all_of sets cs) c.name
      ≡ some (group_name all_of (owner_set sets c.control_ids))
unfolding alias_of check_names alias_each
alias_of-each seen all_of sets [] c h m = absurd (Memᴰ.not-nil m)
alias_of-each seen all_of sets (d ∷ cs) c h m =
    let (first, rest) =
      then-ok (raise_if (is_in d.name seen) (duplicated d.name)) (check_names (d.name ∷ seen) cs)
        h in
    elim (Memᴰ.cases_cons m) [
      | inl e ↦ rw e (rw (bytes_eq_self d.name) refl)
      | inr n ↦
          let apart : bytes_eq c.name d.name ≡ false =
            ground (arith, names_apart (d.name ∷ seen) cs c rest n) in
          rw apart (alias_of-each (d.name ∷ seen) all_of sets cs c rest n)
    ]

check_candidate-IsDistinct :
    (is_identifier : Text → Bool) (c : Candidate)
    → check_candidate is_identifier c ≡ ok tt
    → IsDistinct c.control_ids
unfolding check_candidate
check_candidate-IsDistinct is_identifier c h =
    elim (Bool-cases (texts_eq c.control_ids (sorted_set c.control_ids))) [
      | inl e ↦ sorted-IsDistinct c.control_ids e
      | inr e ↦ absurd (ground (arith, e, h))
    ]

pub record Owned (cs : List Candidate) (aliases : Aliases) (p q r : Candidate) : Type 0 where
  pub listed : Memᴰ r cs
  pub first_alias : alias_of aliases p.name ≡ some r.name
  pub second_alias : alias_of aliases q.name ≡ some r.name
  pub first_covered : is_subset p.control_ids r.control_ids ≡ true
  pub second_covered : is_subset q.control_ids r.control_ids ≡ true
  pub highest : (c : Candidate) → Memᴰ c cs → is_strict r.control_ids c.control_ids ≡ false

alias_lem :
    (cs : List Candidate) (aliases : Aliases) (c : Candidate)
    → check_names [] cs ≡ ok tt
    → control_set_aliases cs ≡ ok aliases
    → Memᴰ c cs
    → alias_of aliases c.name ≡ some (group_name cs (owner_of cs c))
unfolding control_set_aliases owner_of
alias_lem cs aliases c d h m =
    let (first, rest) =
      then-ok (check_pairs cs (control_sets_of cs)) (ok (alias_each cs (control_sets_of cs) cs))
        h in
    let found = alias_of-each [] cs (control_sets_of cs) cs c d m in cc

-- Where every candidate passes its checks, no name is listed twice and the aliases are given,
-- two candidates with a control in common have the same alias: the name of a candidate that
-- has all the controls of both, and that no candidate's controls go strictly beyond.
pub one_owner :
    (is_identifier : Text → Bool) (cs : List Candidate) (aliases : Aliases) (p q : Candidate)
    → ((c : Candidate) → Memᴰ c cs → check_candidate is_identifier c ≡ ok tt)
    → check_names [] cs ≡ ok tt
    → control_set_aliases cs ≡ ok aliases
    → Memᴰ p cs
    → Memᴰ q cs
    → overlaps p.control_ids q.control_ids ≡ true
    → (r : Candidate) × Owned cs aliases p q r
unfolding control_set_aliases IsSound IsNamed group_name owner_of owner_set
one_owner is_identifier cs aliases p q v d h m n meets =
    let sound : IsSound cs = λ c k. check_candidate-IsDistinct is_identifier c (v c k) in
    let (checked, rest) =
      then-ok (check_pairs cs (control_sets_of cs)) (ok (alias_each cs (control_sets_of cs) cs))
        h in
    let w = owner_lem (control_sets_of cs) p.control_ids in
    let u = owner_lem (control_sets_of cs) q.control_ids in
    let (r, there, e, same) = group_name-IsNamed cs p (owner_of cs p) m w in
    let alike = same_owner cs p q sound checked m n meets in
    let names = ap first_name (group_cong (owner_of cs q) (owner_of cs p) cs alike) in
    let inside : is_subset (owner_of cs p) r.control_ids ≡ true = ground (arith, same) in
    let across : is_subset (owner_of cs q) (owner_of cs p) ≡ true = ground (arith, alike) in
    (
      r,
      record {
        listed = there;
        first_alias = alias_lem cs aliases p d h m ∙ ap some e;
        second_alias = alias_lem cs aliases q d h n ∙ ap some (names ∙ e);
        first_covered = subset_trans p.control_ids (owner_of cs p) r.control_ids w.above inside;
        second_covered =
            subset_trans q.control_ids (owner_of cs q) r.control_ids u.above
              (subset_trans (owner_of cs q) (owner_of cs p) r.control_ids across inside);
        highest = λ c k. elim (Bool-cases (is_strict r.control_ids c.control_ids)) [
          | inr fine ↦ fine
          | inl beyond ↦
              let (l, i, g) = set_of cs c k in
              let past =
                strict-same (owner_of cs p) c.control_ids l
                  (strict-subset (owner_of cs p) r.control_ids c.control_ids inside beyond) g in
              absurd (ground (arith, past, owner-maximal cs p (owner_of cs p) l sound m w i))
        ];
      },
    )
