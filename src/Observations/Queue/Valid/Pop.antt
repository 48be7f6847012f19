-- ===== src/Observations/Queue/Valid/Pop.antt =====
-- `pop` of _observations/queue.py.
use marimo_export.Prelude.{
  ℕ, ◌+◌, ◌-◌, ◌≤◌, String, str_eq, str_eq_iff, true, false, ◌&&◌, not, Option, none, some, List,
  [], ◌∷◌, ◌≡◌, ◌≢◌, ◌↔◌, refl, arith, length, any, if◌then◌else◌, Bool-cases, inl, inr,
}
use marimo_export.Observations.Inputs.{byte_count}
use marimo_export.Observations.Queue.{
  PendingObservation, PendingWrite, observation, advance, ObservationQueue, of_producer,
  has_revisions, revisions, has_producer, discard, remove_producer_if_empty, pop_from, pop,
  is_nonempty,
}
use marimo_export.Observations.Queue.Revisions.{revisions_absent}
use marimo_export.Observations.Queue.Eviction.{is_held}
use marimo_export.Observations.Queue.Valid.{IsValid, IsEntered, Distinct, occurrences_of}

-- The occurrences that a write carries for a producer.
abbrev pub carries : String → Option PendingWrite → ℕ
carries producer none = 0
carries producer (some (observation p)) =
    if str_eq p.producer_sha256 producer then p.occurrences else 0
carries producer (some (advance a)) = if str_eq a.producer_sha256 producer then a.occurrences else 0

has_producer-discard :
    (p k : String) (ps : List String)
    → has_producer p (discard k ps) ≡ (not (str_eq k p) && has_producer p ps)
unfolding discard
has_producer-discard p k [] = ground arith
has_producer-discard p k (x ∷ ps) =
    ground (arith, has_producer-discard p k ps, str_eq_iff x k, str_eq_iff k p, str_eq_iff x p)

discard-Distinct : (k : String) (ps : List String) → Distinct ps → Distinct (discard k ps)
unfolding discard
discard-Distinct k [] h = tt
discard-Distinct k (x ∷ ps) h =
    ground (arith, has_producer-discard x k ps, discard-Distinct k ps h.1)

length-discard-le : (k : String) (ps : List String) → length (discard k ps) ≤ length ps
unfolding discard
length-discard-le k [] = omega arith
length-discard-le k (x ∷ ps) = ground (arith, length-discard-le k ps)

module _ {size : String → ℕ} (producer : String) {q : ObservationQueue}
    (h : IsEntered size producer q) where
  discarded-IsValid :
      is_held producer q.pending q.revision_only ≡ false
      → IsValid size (record q { producers = discard producer q.producers })
  discarded-IsValid free = record {
    sized = h.sized;
    counted = h.counted;
    short = h.short;
    light = h.light;
    few = omega (arith, h.few, length-discard-le producer q.producers);
    distinct = h.distinct;
    distinct_producers = discard-Distinct producer q.producers h.distinct_producers;
    exact = λ p. ground (
      arith,
      h.exact p,
      free,
      has_producer-discard p producer q.producers,
      str_eq_iff producer p,
    );
  }

  kept-IsValid : is_held producer q.pending q.revision_only ≡ true → IsValid size q
  kept-IsValid still = record {
    sized = h.sized;
    counted = h.counted;
    short = h.short;
    light = h.light;
    few = h.few;
    distinct = h.distinct;
    distinct_producers = h.distinct_producers;
    exact = λ p. ground (arith, h.exact p, still, str_eq_iff producer p);
  }

  remove_producer_if_empty_lem :
      IsValid size (remove_producer_if_empty q producer)
      × ((p : String) → occurrences_of p (remove_producer_if_empty q producer) ≡ occurrences_of p q)
  unfolding remove_producer_if_empty
  remove_producer_if_empty_lem = elim (Bool-cases (has_revisions producer q.revision_only)) [
    | inl noted ↦ rw noted (kept-IsValid (rw noted), λ p. refl)
    | inr none_noted ↦ elim (Bool-cases (any (of_producer producer) q.pending)) [
      | inl there ↦ rw (none_noted, there) (kept-IsValid (rw (none_noted, there)), λ p. refl)
      | inr gone ↦ rw (none_noted, gone) (discarded-IsValid (rw (none_noted, gone)), λ p. refl)
    ]
  ]

-- What `pop` leaves is valid, and the counts before are those after and those written out.
abbrev pub Popped : (String → ℕ) → ObservationQueue → Type 0
Popped size q =
    IsValid size (pop q).0
    × ((p : String) → occurrences_of p (pop q).0 + carries p (pop q).1 ≡ occurrences_of p q)
    × ((is_nonempty q ≡ true) ↔ ((pop q).1 ≢ none))

module _ (size : String → ℕ) (bytes : ℕ) (producers : List String) where
  abbrev queue : List PendingObservation → ℕ → List (String × ℕ) → ObservationQueue
  queue ps b revs = record {
    pending = ps;
    pending_bytes = b;
    revision_only = revs;
    producers = producers;
  }

  popped_entry :
      (x : PendingObservation) (rest : List PendingObservation)
      → IsValid size (queue (x ∷ rest) bytes [])
      → IsEntered size x.producer_sha256 (queue rest (bytes - byte_count x.observed) [])
  popped_entry x rest h = record {
    sized = h.sized.1;
    counted = omega (arith, h.counted);
    short = omega (arith, h.short);
    light = omega (arith, h.light);
    few = h.few;
    distinct = tt;
    distinct_producers = h.distinct_producers;
    exact = λ p. ground (arith, h.exact p);
  }

  popped_advance :
      (ps : List PendingObservation) (r : String × ℕ) (rest : List (String × ℕ))
      → IsValid size (queue ps bytes (r ∷ rest))
      → IsEntered size r.0 (queue ps bytes rest)
  unfolding has_revisions
  popped_advance ps r rest h = record {
    sized = h.sized;
    counted = h.counted;
    short = h.short;
    light = h.light;
    few = h.few;
    distinct = h.distinct.1;
    distinct_producers = h.distinct_producers;
    exact = λ p. ground (arith, h.exact p);
  }

  pop_parts :
      (ps : List PendingObservation) (revs : List (String × ℕ))
      → IsValid size (queue ps bytes revs)
      → Popped size (queue ps bytes revs)
  unfolding pop_from revisions
  pop_parts [] [] h = (h, λ p. omega arith, ground arith)
  pop_parts (x ∷ rest) [] h =
      let (valid, same) = remove_producer_if_empty_lem x.producer_sha256 (popped_entry x rest h) in
      (valid, λ p. omega (arith, same p), ground arith)
  pop_parts ps ((producer, n) ∷ rest) h =
      let (valid, same) =
        remove_producer_if_empty_lem producer (popped_advance ps (producer, n) rest h) in
      (
        valid,
        λ p.
            ground
              (arith, same p, str_eq_iff producer p, revisions_absent producer rest h.distinct.0),
        ground arith,
      )

-- From a valid queue, pop leaves a valid queue, returns exactly the occurrences that leave it,
-- producer by producer, and returns nothing only from an empty queue.
pub pop_lem : (size : String → ℕ) (q : ObservationQueue) → IsValid size q → Popped size q
pop_lem size q h = pop_parts size q.pending_bytes q.producers q.pending q.revision_only h
