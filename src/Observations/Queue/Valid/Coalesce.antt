-- ===== src/Observations/Queue/Valid/Coalesce.antt =====
-- The branch of `add` in which the producer's latest entry takes a repeated vector.
use marimo_export.Prelude.{
  ℕ, ◌+◌, ◌≤◌, String, str_eq, str_eq_iff, str_eq_self, true, some, ◌∷◌, ◌++◌, ◌≡◌, refl, sym, ap,
  ◌∙◌, arith, length, get_elem?, set, any, All, All-append, All-left, All-right, length-append,
  sum_by, sum_by-append, any-append, get_elem?-append_length, set-append_length, if◌then◌else◌, ok,
  Bool-cases, Option-cases, inl, inr,
}
use marimo_export.Prelude.Latest.{IsLatest, latest_index, latest_index-some}
use marimo_export.Observations.Inputs.{ObservedInputs, byte_count, IsSized, max_observation_bytes}
use marimo_export.Observations.Queue.{PendingObservation, ObservationQueue, of_producer, coalesce}
use marimo_export.Observations.Queue.Eviction.{count_of, is_held}
use marimo_export.Observations.Queue.Valid.{IsValid, IsEntered, Added, occurrences_of}
use marimo_export.Observations.Queue.Valid.Append.{append_lem}

module _ (size : String → ℕ) (q : ObservationQueue) (producer : String) (observed : ObservedInputs)
    (h : IsEntered size producer q) (sized : IsSized size observed)
    (small : byte_count observed ≤ max_observation_bytes) where
  module _ (i : ℕ) (l : IsLatest (of_producer producer) q.pending i)
      (same : str_eq l.item.observed.fingerprint observed.fingerprint ≡ true) where
    abbrev repeated : PendingObservation
    repeated = record {
      producer_sha256 = producer;
      observed = observed;
      occurrences = l.item.occurrences + 1;
    }

    abbrev replaced : ObservationQueue
    replaced = record q { pending = l.before ++ repeated ∷ l.after }

    same_producer : l.item.producer_sha256 ≡ producer
    same_producer = (str_eq_iff _ _).0 l.passes

    item-IsSized : IsSized size l.item.observed
    item-IsSized =
        (All-right (λ p. IsSized size p.observed) l.before (l.item ∷ l.after)
          (rw l.splits at h.sized)).0

    same_bytes : byte_count l.item.observed ≡ byte_count observed
    same_bytes = item-IsSized ∙ (ap size ((str_eq_iff _ _).0 same) ∙ sym sized)

    -- A measure of the entries, before and after the replacement.
    measured :
        (f : PendingObservation → ℕ)
        → sum_by f replaced.pending + f l.item ≡ sum_by f q.pending + f repeated
    measured f = omega (
      arith,
      ap (sum_by f) l.splits,
      sum_by-append f l.before (l.item ∷ l.after),
      sum_by-append f l.before (repeated ∷ l.after),
    )

    same_any : (p : String) → any (of_producer p) replaced.pending ≡ any (of_producer p) q.pending
    same_any p = ground (
      arith,
      ap (any (of_producer p)) l.splits,
      ap (λ s. str_eq s p) same_producer,
      any-append (of_producer p) l.before (l.item ∷ l.after),
      any-append (of_producer p) l.before (repeated ∷ l.after),
    )

    same_length : length replaced.pending ≡ length q.pending
    same_length = omega (
      arith,
      ap length l.splits,
      length-append {0} l.before (l.item ∷ l.after),
      length-append {0} l.before (repeated ∷ l.after),
    )

    abbrev SizedEntry : PendingObservation → Type 0
    SizedEntry p = IsSized size p.observed

    split_sized : All SizedEntry (l.before ++ l.item ∷ l.after)
    split_sized = rw l.splits at h.sized

    still_sized : All SizedEntry replaced.pending
    still_sized =
        All-append SizedEntry l.before (repeated ∷ l.after)
          (All-left SizedEntry l.before (l.item ∷ l.after) split_sized)
          (sized, (All-right SizedEntry l.before (l.item ∷ l.after) split_sized).1)

    entered : is_held producer q.pending q.revision_only ≡ true
    entered = ground (
      arith,
      l.passes,
      ap (any (of_producer producer)) l.splits,
      any-append (of_producer producer) l.before (l.item ∷ l.after),
    )

    replaced-IsValid : IsValid size replaced
    replaced-IsValid = record {
      sized = still_sized;
      counted = omega (arith, h.counted, same_bytes, measured (λ p. byte_count p.observed));
      short = omega (arith, same_length, h.short);
      light = h.light;
      few = h.few;
      distinct = h.distinct;
      distinct_producers = h.distinct_producers;
      exact = λ p. ground (arith, h.exact p, same_any p, entered, str_eq_iff producer p);
    }

    replaced_counts :
        (p : String)
        → occurrences_of p replaced ≡ occurrences_of p q + (if str_eq producer p then 1 else 0)
    replaced_counts p = ground (arith, measured (count_of p), ap (λ s. str_eq s p) same_producer)

    replaced-Added : Added size q producer observed replaced
    replaced-Added = record {
      valid = replaced-IsValid;
      counts = replaced_counts;
      at = length l.before;
      latest = record {
        before = l.before;
        item = repeated;
        after = l.after;
        splits = refl;
        index = refl;
        passes = str_eq_self producer;
        last = l.last;
      };
      newest = refl;
    }

  module _ (i : ℕ) (l : IsLatest (of_producer producer) q.pending i) where
    found : get_elem? q.pending i ≡ some l.item
    found = rw (l.splits, l.index) (get_elem?-append_length l.before l.item l.after)

    put : (v : PendingObservation) → set q.pending i v ≡ l.before ++ v ∷ l.after
    put v = rw (l.splits, l.index) (set-append_length l.before l.item v l.after)

  pub coalesce_lem :
      (q' : ObservationQueue) × (coalesce q producer observed ≡ ok q')
      × Added size q producer observed q'
  unfolding coalesce
  coalesce_lem = elim (Option-cases (latest_index (of_producer producer) q.pending)) [
    | inl e ↦
        let (q', ran, added) = append_lem size q producer observed h sized small in
        (q', rw (e, coalesce) ran, added)
    | inr (i, e) ↦
        let l = latest_index-some (of_producer producer) q.pending i e in
        elim (Bool-cases (str_eq l.item.observed.fingerprint observed.fingerprint)) [
          | inl same ↦ (
            replaced i l same,
            rw (e, coalesce) (rw (found i l) (rw same (rw (put i l (repeated i l same))))),
            replaced-Added i l same,
          )
          | inr other ↦
              let (q', ran, added) = append_lem size q producer observed h sized small in
              (q', rw (e, coalesce) (rw (found i l) (rw other ran)), added)
        ]
  ]
