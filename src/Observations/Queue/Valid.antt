-- ===== src/Observations/Queue/Valid.antt =====
-- The invariant of `ObservationQueue`, and what `add` makes of a queue that meets it.
mod Append
mod Coalesce
pub mod Add
pub mod Pop
use marimo_export.Prelude.{
  ℕ, ◌+◌, ◌≤◌, String, str_eq, str_eq_iff, str_eq_self, Bool, true, false, ◌||◌, Option, none, some,
  List, [], ◌∷◌, ◌++◌, ◌≡◌, refl, sym, ap, ◌∙◌, arith, length, get_elem?, set, any, All, All-append,
  All-left, All-right, length-append, sum_by, sum_by-append, any-append, get_elem?-append_length,
  set-append_length, if◌then◌else◌, Result, ok, err, Bool-cases, Option-cases, inl, inr,
}
use marimo_export.Prelude.Latest.{IsLatest, latest_index, latest_index-none, latest_index-some}
use marimo_export.Observations.Inputs.{
  ObservedInputs, byte_count, IsSized, max_pending_observations, max_pending_bytes,
  max_pending_producers, max_observation_bytes, too_large, too_many_producers,
}
use marimo_export.Observations.Queue.{
  PendingObservation, ObservationQueue, of_producer, has_revisions, has_producer, evict,
  enforce_limits, append, coalesce, add,
}
use marimo_export.Observations.Queue.Revisions.{DistinctKeys}
use marimo_export.Observations.Queue.Eviction.{
  total_bytes, count_of, held, is_held, Evicted, evict_lem, evict-last,
}

-- No producer stands twice in the set.
abbrev pub Distinct : List String → Type 0
Distinct [] = Unit
Distinct (p ∷ ps) = (has_producer p ps ≡ false) × Distinct ps

-- The occurrences of a producer that the queue has still to write.
abbrev pub occurrences_of : String → ObservationQueue → ℕ
occurrences_of producer q = held producer q.pending q.revision_only

-- `size` gives the number of canonical bytes behind a fingerprint.
pub record IsValid (size : String → ℕ) (q : ObservationQueue) : Type 0 where
  pub sized : All (λ p. IsSized size p.observed) q.pending
  pub counted : q.pending_bytes ≡ total_bytes q.pending
  pub short : length q.pending ≤ max_pending_observations
  pub light : q.pending_bytes ≤ max_pending_bytes
  pub few : length q.producers ≤ max_pending_producers
  pub distinct : DistinctKeys q.revision_only
  pub distinct_producers : Distinct q.producers
  -- A producer holds a place exactly while the queue holds something of it.
  pub exact : (p : String) → has_producer p q.producers ≡ is_held p q.pending q.revision_only

-- The same once `add` has entered the producer in the set, and nothing of it yet.
pub record IsEntered (size : String → ℕ) (producer : String) (q : ObservationQueue) : Type 0 where
  pub sized : All (λ p. IsSized size p.observed) q.pending
  pub counted : q.pending_bytes ≡ total_bytes q.pending
  pub short : length q.pending ≤ max_pending_observations
  pub light : q.pending_bytes ≤ max_pending_bytes
  pub few : length q.producers ≤ max_pending_producers
  pub distinct : DistinctKeys q.revision_only
  pub distinct_producers : Distinct q.producers
  pub exact :
      (p : String)
      → has_producer p q.producers ≡ (str_eq producer p || is_held p q.pending q.revision_only)

-- What `add` makes of a queue: valid again, one occurrence more of the producer and no other
-- count changed, and the observation is the producer's latest entry.
pub record Added (size : String → ℕ) (q : ObservationQueue) (producer : String)
    (observed : ObservedInputs) (q' : ObservationQueue) : Type 0 where
  pub valid : IsValid size q'
  pub counts :
      (p : String) → occurrences_of p q' ≡ occurrences_of p q + (if str_eq producer p then 1 else 0)
  pub at : ℕ
  pub latest : IsLatest (of_producer producer) q'.pending at
  pub newest : latest.item.observed ≡ observed
