-- ===== src/Observations/Candidates/Valid/Coalesce.antt =====
-- The branch of `add` in which the scope's latest entry takes a repeated vector.
use marimo_export.Prelude.{
  ℕ, ◌+◌, ◌<◌, String, str_eq, str_eq_iff, str_eq_self, true, false, List, [], some, ◌∷◌, ◌++◌, ◌≡◌,
  refl, sym, ap, ◌∙◌, arith, length, get_elem?, set, any, All, All-append, All-left, All-right,
  length-append, sum_by, sum_by-append, any-append, get_elem?-append_length, set-append_length,
  if◌then◌else◌, ok, err, Bool-cases, Option-cases, inl, inr, ◌⊎◌,
}
use marimo_export.Prelude.Latest.{IsLatest, latest_index, latest_index-some, latest_index-none}
use marimo_export.Observations.Inputs.{
  ObservedInputs, byte_count, IsSized, max_pending_producers, full,
}
use marimo_export.Observations.Candidates.{
  ObservationCandidate, CandidateQueue, of_scope, has_scope, coalesce, append,
}
use marimo_export.Observations.Candidates.Valid.Append.{IsFull, HasSpace, append_lem}
use marimo_export.Observations.Candidates.Valid.{IsValid, Added, occurrences_of, count_of, repeats}

module _ {Resolver : Type 0} (scope : String) (observed : ObservedInputs) where
  repeats-none :
      (cs : List (ObservationCandidate Resolver))
      → any (of_scope scope) cs ≡ false
      → repeats scope observed cs ≡ false
  unfolding repeats
  repeats-none [] h = refl
  repeats-none (c ∷ cs) h = ground arith

  repeats-split :
      (before : List (ObservationCandidate Resolver)) (item : ObservationCandidate Resolver)
      (after : List (ObservationCandidate Resolver))
      → of_scope scope item ≡ true
      → any (of_scope scope) after ≡ false
      → repeats scope observed (before ++ item ∷ after)
        ≡ str_eq item.observed.fingerprint observed.fingerprint
  unfolding repeats
  repeats-split [] item after hit free = rw (free, hit) refl
  repeats-split (c ∷ before) item after hit free = ground (
    arith,
    any-append (of_scope scope) before (item ∷ after),
    repeats-split before item after hit free,
  )

  repeats-IsLatest :
      (cs : List (ObservationCandidate Resolver)) (i : ℕ) (l : IsLatest (of_scope scope) cs i)
      → repeats scope observed cs ≡ str_eq l.item.observed.fingerprint observed.fingerprint
  repeats-IsLatest cs i l =
      ap (repeats scope observed) l.splits ∙ repeats-split l.before l.item l.after l.passes l.last

module _ {Resolver : Type 0} (size : String → ℕ) (q : CandidateQueue Resolver) (scope : String)
    (observed : ObservedInputs) (resolve : Resolver) (h : IsValid size q)
    (sized : IsSized size observed)
    (room : (has_scope scope q.scopes ≡ true) ⊎ (length q.scopes < max_pending_producers)) where
  -- What `coalesce` comes to: a repeated vector is taken however full the queue is.
  abbrev pub CoalesceOutcome : Type 0
  CoalesceOutcome =
      (coalesce q scope observed resolve ≡ err full)
        × (repeats scope observed q.pending ≡ false)
        × IsFull size q scope observed resolve h sized room
      ⊎ (q' : CandidateQueue Resolver) × (coalesce q scope observed resolve ≡ ok q')
        × ((repeats scope observed q.pending ≡ true)
            ⊎ HasSpace size q scope observed resolve h sized room)
        × Added size q scope observed resolve q'

  module _ (i : ℕ) (l : IsLatest (of_scope scope) q.pending i)
      (same : str_eq l.item.observed.fingerprint observed.fingerprint ≡ true) where
    abbrev repeated : ObservationCandidate Resolver
    repeated = record {
      scope = scope;
      observed = observed;
      occurrences = l.item.occurrences + 1;
      resolve_producer = resolve;
    }

    abbrev replaced : CandidateQueue Resolver
    replaced = record q { pending = l.before ++ repeated ∷ l.after }

    same_scope : l.item.scope ≡ scope
    same_scope = (str_eq_iff _ _).0 l.passes

    item-IsSized : IsSized size l.item.observed
    item-IsSized =
        (All-right (λ p. IsSized size p.observed) l.before (l.item ∷ l.after)
          (rw l.splits at h.sized)).0

    same_bytes : byte_count l.item.observed ≡ byte_count observed
    same_bytes = item-IsSized ∙ (ap size ((str_eq_iff _ _).0 same) ∙ sym sized)

    -- A measure of the entries, before and after the replacement.
    measured :
        (f : (ObservationCandidate Resolver) → ℕ)
        → sum_by f replaced.pending + f l.item ≡ sum_by f q.pending + f repeated
    measured f = omega (
      arith,
      ap (sum_by f) l.splits,
      sum_by-append f l.before (l.item ∷ l.after),
      sum_by-append f l.before (repeated ∷ l.after),
    )

    same_any : (p : String) → any (of_scope p) replaced.pending ≡ any (of_scope p) q.pending
    same_any p = ground (
      arith,
      ap (any (of_scope p)) l.splits,
      ap (λ s. str_eq s p) same_scope,
      any-append (of_scope p) l.before (l.item ∷ l.after),
      any-append (of_scope p) l.before (repeated ∷ l.after),
    )

    same_length : length replaced.pending ≡ length q.pending
    same_length = omega (
      arith,
      ap length l.splits,
      length-append {0} l.before (l.item ∷ l.after),
      length-append {0} l.before (repeated ∷ l.after),
    )

    abbrev SizedEntry : ObservationCandidate Resolver → Type 0
    SizedEntry p = IsSized size p.observed

    split_sized : All SizedEntry (l.before ++ l.item ∷ l.after)
    split_sized = rw l.splits at h.sized

    still_sized : All SizedEntry replaced.pending
    still_sized =
        All-append SizedEntry l.before (repeated ∷ l.after)
          (All-left SizedEntry l.before (l.item ∷ l.after) split_sized)
          (sized, (All-right SizedEntry l.before (l.item ∷ l.after) split_sized).1)

    entered : any (of_scope scope) q.pending ≡ true
    entered = ground (
      arith,
      l.passes,
      ap (any (of_scope scope)) l.splits,
      any-append (of_scope scope) l.before (l.item ∷ l.after),
    )

    replaced-IsValid : IsValid size replaced
    replaced-IsValid = record {
      sized = still_sized;
      counted = omega (arith, h.counted, same_bytes, measured (λ p. byte_count p.observed));
      short = omega (arith, same_length, h.short);
      light = h.light;
      few = h.few;
      distinct_scopes = h.distinct_scopes;
      exact = λ p. ground (arith, h.exact p, same_any p, entered, str_eq_iff scope p);
    }

    replaced_counts :
        (p : String)
        → occurrences_of p replaced ≡ occurrences_of p q + (if str_eq scope p then 1 else 0)
    replaced_counts p = ground (arith, measured (count_of p), ap (λ s. str_eq s p) same_scope)

    replaced-Added : Added size q scope observed resolve replaced
    replaced-Added = record {
      valid = replaced-IsValid;
      counts = replaced_counts;
      at = length l.before;
      latest = record {
        before = l.before;
        item = repeated;
        after = l.after;
        splits = refl;
        index = refl;
        passes = str_eq_self scope;
        last = l.last;
      };
      newest = refl;
      resolver = refl;
    }

  module _ (i : ℕ) (l : IsLatest (of_scope scope) q.pending i) where
    found : get_elem? q.pending i ≡ some l.item
    found = rw (l.splits, l.index) (get_elem?-append_length l.before l.item l.after)

    put : (v : (ObservationCandidate Resolver)) → set q.pending i v ≡ l.before ++ v ∷ l.after
    put v = rw (l.splits, l.index) (set-append_length l.before l.item v l.after)

  -- The outcomes where the scope's latest entry has another vector, or there is none.
  appends :
      coalesce q scope observed resolve ≡ append q scope observed resolve
      → repeats scope observed q.pending ≡ false
      → CoalesceOutcome
  appends e new = elim (append_lem size q scope observed resolve h sized room) [
    | inl (ran, is_full) ↦ inl (e ∙ ran, new, is_full)
    | inr (q', ran, space, added) ↦ inr (q', e ∙ ran, inr space, added)
  ]

  pub coalesce_lem : CoalesceOutcome
  unfolding coalesce
  coalesce_lem = elim (Option-cases (latest_index (of_scope scope) q.pending)) [
    | inl e ↦
        appends (rw (e, coalesce) refl)
          (repeats-none scope observed q.pending (latest_index-none (of_scope scope) q.pending e))
    | inr (i, e) ↦
        let l = latest_index-some (of_scope scope) q.pending i e in
        let again = repeats-IsLatest scope observed q.pending i l in
        elim (Bool-cases (str_eq l.item.observed.fingerprint observed.fingerprint)) [
          | inl same ↦ inr (
            replaced i l same,
            rw (e, coalesce) (rw (found i l) (rw same (rw (put i l (repeated i l same))))),
            inl (again ∙ same),
            replaced-Added i l same,
          )
          | inr other ↦ appends (rw (e, coalesce) (rw (found i l) (rw other refl))) (again ∙ other)
        ]
  ]
