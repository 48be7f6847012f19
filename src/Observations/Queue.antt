-- ===== src/Observations/Queue.antt =====
-- `ObservationQueue` of _observations/queue.py. The left end of `pending` is its oldest entry, as
-- in the deque; `revision_only` keeps the insertion order of the OrderedDict.
mod Revisions
pub mod Eviction
pub mod Valid
use marimo_export.Prelude.{
  ℕ, ◌+◌, ◌-◌, String, str_eq, Bool, ◌||◌, Option, none, some, List, [], ◌∷◌, ◌++◌, length,
  get_elem?, set, any, ltb, leb, if◌then◌else◌, Result, ok, err,
}
use marimo_export.Prelude.Latest.{latest_index}
use marimo_export.Observations.Inputs.{
  ObservedInputs, byte_count, max_pending_observations, max_pending_bytes, max_pending_producers,
  max_observation_bytes, QueueError, too_large, too_many_producers, index_error,
}

pub record PendingObservation : Type 0 where
  pub producer_sha256 : String
  pub observed : ObservedInputs
  pub occurrences : ℕ

pub record RevisionAdvance : Type 0 where
  pub producer_sha256 : String
  pub occurrences : ℕ

pub data PendingWrite : Type 0 where
  observation : PendingObservation → PendingWrite
  advance : RevisionAdvance → PendingWrite

pub record ObservationQueue : Type 0 where
  pub pending : List PendingObservation
  pub pending_bytes : ℕ
  pub revision_only : List (String × ℕ)
  pub producers : List String

abbrev pub init : ObservationQueue
init = record { pending = []; pending_bytes = 0; revision_only = []; producers = [] }

-- `bool(queue)`
abbrev pub is_nonempty : ObservationQueue → Bool
is_nonempty q = ltb 0 (length q.pending) || ltb 0 (length q.revision_only)

abbrev pub of_producer : String → PendingObservation → Bool
of_producer producer p = str_eq p.producer_sha256 producer

abbrev pub latest_producer_index : ObservationQueue → String → Option ℕ
latest_producer_index q producer = latest_index (of_producer producer) q.pending

-- `revision_only.get(producer, 0)`
unfoldable pub revisions : String → List (String × ℕ) → ℕ
revisions producer [] = 0
revisions producer ((p, n) ∷ rest) = if str_eq p producer then n else revisions producer rest

-- `revision_only[producer] = n`: a key that is there keeps its place, a new one goes to the end.
unfoldable pub put_revisions : String → ℕ → List (String × ℕ) → List (String × ℕ)
put_revisions producer n [] = (producer, n) ∷ []
put_revisions producer n ((p, m) ∷ rest) =
    if str_eq p producer then (p, n) ∷ rest else (p, m) ∷ put_revisions producer n rest

unfoldable pub has_revisions : String → List (String × ℕ) → Bool
has_revisions producer rs = any (λ r. str_eq r.0 producer) rs

abbrev pub over_limits : ℕ → ℕ → Bool
over_limits count bytes = ltb max_pending_observations count || ltb max_pending_bytes bytes

-- The loop of `_enforce_limits`, over its three variables.
unfoldable pub evict :
    List PendingObservation
    → ℕ
    → List (String × ℕ)
    → Result QueueError (List PendingObservation × ℕ × List (String × ℕ))
evict [] bytes revs = if over_limits 0 bytes then err index_error else ok ([], bytes, revs)
evict (evicted ∷ rest) bytes revs =
    let next = evict rest (bytes - byte_count evicted.observed) (
      put_revisions evicted.producer_sha256
        (revisions evicted.producer_sha256 revs + evicted.occurrences) revs) in
    if over_limits (length (evicted ∷ rest)) bytes then next else ok (evicted ∷ rest, bytes, revs)

unfoldable pub enforce_limits : ObservationQueue → Result QueueError ObservationQueue
enforce_limits q = elim (evict q.pending q.pending_bytes q.revision_only) [
  | err e ↦ err e
  | ok (pending, bytes, revs) ↦
      ok (record q { pending = pending; pending_bytes = bytes; revision_only = revs })
]

abbrev pub has_producer : String → List String → Bool
has_producer producer ps = any (λ p. str_eq p producer) ps

-- The end of `add`: a new pending entry, and the eviction that it may cause.
unfoldable pub append :
    ObservationQueue → String → ObservedInputs → Result QueueError ObservationQueue
append q producer observed = enforce_limits (record q {
  pending =
      q.pending
      ++ (record { producer_sha256 = producer; observed = observed; occurrences = 1 } ∷ []);
  pending_bytes = q.pending_bytes + byte_count observed;
})

-- The middle of `add`: the producer's latest entry takes a repeated vector.
unfoldable pub coalesce :
    ObservationQueue → String → ObservedInputs → Result QueueError ObservationQueue
coalesce q producer observed = elim (latest_producer_index q producer) [
  | none ↦ append q producer observed
  | some i ↦ elim (get_elem? q.pending i) [
    | none ↦ err index_error
    | some previous ↦
        if str_eq previous.observed.fingerprint observed.fingerprint
        then ok (record q {
          pending = set q.pending i (record {
            producer_sha256 = producer;
            observed = observed;
            occurrences = previous.occurrences + 1;
          });
        })
        else append q producer observed
  ]
]

-- A raise leaves the queue as it was: no error comes after the first change but the eviction's.
unfoldable pub add : ObservationQueue → String → ObservedInputs → Result QueueError ObservationQueue
add q producer observed =
    if ltb max_observation_bytes (byte_count observed)
    then err too_large
    else if has_producer producer q.producers
    then coalesce q producer observed
    else if leb max_pending_producers (length q.producers)
    then err too_many_producers
    else coalesce (record q { producers = producer ∷ q.producers }) producer observed

unfoldable pub discard : String → List String → List String
discard producer [] = []
discard producer (p ∷ ps) =
    let rest = discard producer ps in if str_eq p producer then rest else p ∷ rest

unfoldable pub remove_producer_if_empty : ObservationQueue → String → ObservationQueue
unfolding has_revisions
remove_producer_if_empty q producer =
    if has_revisions producer q.revision_only
    then q
    else if any (of_producer producer) q.pending
    then q
    else record q { producers = discard producer q.producers }

-- `pop`: the oldest revision advance, or else the oldest entry.
unfoldable pub pop_pending :
    ObservationQueue → List PendingObservation → ObservationQueue × Option PendingWrite
pop_pending q [] = (q, none)
pop_pending q (p ∷ rest) = (
  remove_producer_if_empty
      (record q { pending = rest; pending_bytes = q.pending_bytes - byte_count p.observed })
      p.producer_sha256,
  some (observation p),
)

unfoldable pub pop_from :
    ObservationQueue → List (String × ℕ) → ObservationQueue × Option PendingWrite
unfolding pop_pending
pop_from q [] = pop_pending q q.pending
pop_from q ((producer, n) ∷ rest) = (
  remove_producer_if_empty (record q { revision_only = rest }) producer,
  some (advance (record { producer_sha256 = producer; occurrences = n })),
)

abbrev pub pop : ObservationQueue → ObservationQueue × Option PendingWrite
pop q = pop_from q q.revision_only

abbrev pub clear : ObservationQueue → ObservationQueue
clear q = record { pending = []; pending_bytes = 0; revision_only = []; producers = [] }
