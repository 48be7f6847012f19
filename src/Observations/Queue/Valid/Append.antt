-- ===== src/Observations/Queue/Valid/Append.antt =====
-- The branch of `add` that appends an entry and evicts.
use marimo_export.Prelude.{
  ℕ, ◌+◌, ◌≤◌, String, str_eq, str_eq_self, List, [], ◌∷◌, ◌++◌, ◌≡◌, refl, arith, length,
  All-append, All-right, sum_by-append, any-append, if◌then◌else◌, ok,
}
use marimo_export.Observations.Inputs.{ObservedInputs, byte_count, IsSized, max_observation_bytes}
use marimo_export.Observations.Queue.{
  PendingObservation, ObservationQueue, of_producer, enforce_limits, append,
}
use marimo_export.Observations.Queue.Eviction.{
  total_bytes, count_of, Evicted, evict_lem, evict-last,
}
use marimo_export.Observations.Queue.Valid.{IsValid, IsEntered, Added, occurrences_of}

module _ (size : String → ℕ) (q : ObservationQueue) (producer : String) (observed : ObservedInputs)
    (h : IsEntered size producer q) (sized : IsSized size observed)
    (small : byte_count observed ≤ max_observation_bytes) where
  abbrev fresh : PendingObservation
  fresh = record { producer_sha256 = producer; observed = observed; occurrences = 1 }

  appended_bytes : q.pending_bytes + byte_count observed ≡ total_bytes (q.pending ++ fresh ∷ [])
  appended_bytes =
      omega (arith, h.counted, sum_by-append (λ p. byte_count p.observed) q.pending (fresh ∷ []))

  module _ (e : Evicted (q.pending ++ fresh ∷ []) q.revision_only) where
    abbrev evicted : ObservationQueue
    evicted = record q {
      pending = e.kept;
      pending_bytes = total_bytes e.kept;
      revision_only = e.revs';
    }

    evicted-IsValid : IsValid size evicted
    evicted-IsValid = record {
      sized =
          All-right (λ p. IsSized size p.observed) e.gone e.kept
            (rw e.splits at (
              All-append (λ p. IsSized size p.observed) q.pending (fresh ∷ []) h.sized
                (sized, tt)));
      counted = refl;
      short = e.short;
      light = e.light;
      few = h.few;
      distinct = e.distinct h.distinct;
      distinct_producers = h.distinct_producers;
      exact = λ p.
          ground (
            arith,
            h.exact p,
            e.same_producers p,
            any-append (of_producer p) q.pending (fresh ∷ []),
          );
    }

    evicted_counts :
        (p : String)
        → occurrences_of p evicted ≡ occurrences_of p q + (if str_eq producer p then 1 else 0)
    evicted_counts p =
        ground (arith, e.same_count p, sum_by-append (count_of p) q.pending (fresh ∷ []))

    evicted-Added :
        (pre : List PendingObservation)
        → e.kept ≡ pre ++ fresh ∷ []
        → Added size q producer observed evicted
    evicted-Added pre split = record {
      valid = evicted-IsValid;
      counts = evicted_counts;
      at = length pre;
      latest = record {
        before = pre;
        item = fresh;
        after = [];
        splits = split;
        index = refl;
        passes = str_eq_self producer;
        last = refl;
      };
      newest = refl;
    }

  pub append_lem :
      (q' : ObservationQueue) × (append q producer observed ≡ ok q')
      × Added size q producer observed q'
  unfolding append enforce_limits
  append_lem =
      let (e, out) = evict_lem (q.pending ++ fresh ∷ []) q.revision_only in
      let (pre, rest, last) = evict-last q.pending fresh q.revision_only (omega arith) in
      (evicted e, rw appended_bytes (rw (out, enforce_limits)), evicted-Added e pre (ground arith))
