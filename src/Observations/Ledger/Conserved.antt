-- ===== src/Observations/Ledger/Conserved.antt =====
-- Whole runs of the ledger against the repository's revisions.
use marimo_export.Prelude.{
  ℕ, ◌+◌, String, ◌||◌, true, false, Option, is_none, ltb, length, none, some, List, [], ◌∷◌, All,
  ◌≡◌, refl, sum_by, arith,
}
use marimo_export.Observations.Queue
use marimo_export.Observations.Queue.{ObservationQueue, PendingObservation, revisions}
use marimo_export.Observations.Queue.Eviction.{held}
use marimo_export.Observations.Candidates.{ObservationCandidate}
use marimo_export.Observations.Candidates.Valid as CandidateLaws
use marimo_export.Observations.Ledger.Writes.{Repository, Work}
use marimo_export.Observations.Ledger.{Ledger, init, is_idle}
use marimo_export.Observations.Ledger.Flow.{
  Event, IsSizedEvent, apply, run, credits, entries, finishes, waiting, held_by_work,
  deferred_waiting, held_candidate, IsSound,
}
use marimo_export.Observations.Ledger.Sound.{
  Kept, apply-Kept, cleared_queue-IsValid, cleared_candidates-IsValid,
}

pub init-IsSound :
    {Resolver Store : Type 0} (size : String → ℕ) (s : Store)
    → IsSound {Resolver = Resolver} size (init s)
init-IsSound size s = record {
  queue_valid = cleared_queue-IsValid size Queue.init;
  candidates_valid =
      cleared_candidates-IsValid size (record { pending = []; pending_bytes = 0; scopes = [] });
}

module _ {Resolver Store : Type 0} (repo : Repository Store) (size : String → ℕ) where
  run-Kept :
      (events : List (Event Resolver)) (ℓ : Ledger Resolver Store)
      → All (IsSizedEvent size) events
      → IsSound size ℓ
      → Kept repo size ℓ
          (λ q. credits repo q events ℓ)
          (λ s. entries repo s events ℓ)
          (λ s. finishes repo s events ℓ)
          (run repo events ℓ)
  unfolding run credits entries finishes
  run-Kept [] ℓ sized h = record {
    sound = h;
    remembers = λ e. e;
    balanced = λ e q. omega arith;
    scopes = λ e s. omega arith;
  }
  run-Kept (ev ∷ events) ℓ sized h =
      let first = apply-Kept repo size ev ℓ h sized.0 in
      let rest = run-Kept events (apply repo ev ℓ) sized.1 first.sound in
      record {
        sound = rest.sound;
        remembers = λ e. first.remembers (rest.remembers e);
        balanced = λ e q. omega (arith, rest.balanced e q, first.balanced (rest.remembers e) q);
        scopes = λ e s. omega (arith, rest.scopes e s, first.scopes (rest.remembers e) s);
      }

  -- Where a vector's fingerprint fixes its size: after any calls of a sound ledger's clients
  -- and any steps of its worker, whatever the resolvers and the locks do, if no failure is
  -- remembered then for every producer the repository's revision and the occurrences that
  -- record accepted and that still wait to be written add up to what they were and to what the
  -- events are credited with: one for each accepted record, and for a candidate that the
  -- worker finishes its occurrences, if its resolver names the producer; and for every scope
  -- the deferred occurrences that are queued or in the worker's hands and those that the
  -- worker has finished add up to those that were there and to one for each accepted call of
  -- record_deferred.
  pub run_conserves :
      (events : List (Event Resolver)) (ℓ : Ledger Resolver Store)
      → All (IsSizedEvent size) events
      → IsSound size ℓ
      → (run repo events ℓ).failure ≡ none
      → ((q : String)
          → repo.revision q (run repo events ℓ).store + waiting q (run repo events ℓ)
            ≡ repo.revision q ℓ.store + waiting q ℓ + credits repo q events ℓ)
        × ((s : String)
            → deferred_waiting s (run repo events ℓ) + finishes repo s events ℓ
              ≡ deferred_waiting s ℓ + entries repo s events ℓ)
  run_conserves events ℓ sized h fine =
      let kept = run-Kept events ℓ sized h in (kept.balanced fine, kept.scopes fine)

  -- Where a vector's fingerprint fixes its size, any calls and worker steps keep the
  -- invariants of both queues of a sound ledger.
  pub run-IsSound :
      (events : List (Event Resolver)) (ℓ : Ledger Resolver Store)
      → All (IsSizedEvent size) events
      → IsSound size ℓ
      → IsSound size (run repo events ℓ)
  run-IsSound events ℓ sized h = (run-Kept events ℓ sized h).sound

idle_queue :
    (ps : List PendingObservation) (revs : List (String × ℕ)) (q : String)
    → (ltb 0 (length ps) || ltb 0 (length revs)) ≡ false
    → held q ps revs ≡ 0
unfolding revisions
idle_queue [] [] q e = omega arith
idle_queue (x ∷ ps) revs q e = absurd (ground arith)
idle_queue [] (r ∷ revs) q e = absurd (ground arith)

idle_work :
    {Resolver : Type 0} (o : Option (Work Resolver)) (q : String)
    → is_none o ≡ true
    → held_by_work q o ≡ 0
idle_work none q e = omega arith
idle_work (some w) q e = absurd (ground arith)

idle-waiting :
    {Resolver Store : Type 0} (ℓ : Ledger Resolver Store) (q : String)
    → is_idle ℓ ≡ true
    → waiting q ℓ ≡ 0
idle-waiting ℓ q e = omega (
  arith,
  idle_queue ℓ.queue.pending ℓ.queue.revision_only q (ground arith),
  idle_work ℓ.in_flight q (ground arith),
)

idle_candidates :
    {Resolver : Type 0} (cs : List (ObservationCandidate Resolver)) (s : String)
    → ltb 0 (length cs) ≡ false
    → sum_by (CandidateLaws.count_of s) cs ≡ 0
idle_candidates [] s e = refl
idle_candidates (c ∷ cs) s e = absurd (ground arith)

idle_candidate :
    {Resolver : Type 0} (o : Option (Work Resolver)) (s : String)
    → is_none o ≡ true
    → held_candidate s o ≡ 0
idle_candidate none s e = omega arith
idle_candidate (some w) s e = absurd (ground arith)

idle-deferred_waiting :
    {Resolver Store : Type 0} (ℓ : Ledger Resolver Store) (s : String)
    → is_idle ℓ ≡ true
    → deferred_waiting s ℓ ≡ 0
idle-deferred_waiting ℓ s e = omega (
  arith,
  idle_candidates ℓ.candidates.pending s (ground arith),
  idle_candidate ℓ.in_flight s (ground arith),
)

-- Where a vector's fingerprint fixes its size: when a flush returns, on a ledger that started
-- empty, is idle and remembers no failure, every producer's revision in the repository has
-- grown by exactly the occurrences that the events are credited with, and for every scope the
-- worker has finished exactly the occurrences that record_deferred accepted.
pub flush_is_complete :
    {Resolver Store : Type 0} (repo : Repository Store) (size : String → ℕ)
    (events : List (Event Resolver)) (s : Store)
    → All (IsSizedEvent size) events
    → (run repo events (init s)).failure ≡ none
    → is_idle (run repo events (init s)) ≡ true
    → ((q : String)
        → repo.revision q (run repo events (init s)).store
          ≡ repo.revision q s + credits repo q events (init s))
      × ((k : String) → finishes repo k events (init s) ≡ entries repo k events (init s))
unfolding revisions
flush_is_complete repo size events s sized fine idle =
    let books = run_conserves repo size events (init s) sized (init-IsSound size s) fine in
    (
      λ q. omega (arith, books.0 q, idle-waiting (run repo events (init s)) q idle),
      λ k. omega (arith, books.1 k, idle-deferred_waiting (run repo events (init s)) k idle),
    )
