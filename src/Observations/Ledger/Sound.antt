-- ===== src/Observations/Ledger/Sound.antt =====
-- Each call and each step of the worker: the queues' invariants and the books.
use marimo_export.Prelude.{
  ℕ, ◌+◌, String, Bool, true, false, ◌&&◌, not, Option, none, some, ◌≡◌, ◌≢◌, refl, arith,
  if◌then◌else◌, Bool-cases, inl, inr,
}
use marimo_export.Observations.Inputs.{ObservedInputs, IsSized}
use marimo_export.Observations.Queue
use marimo_export.Observations.Queue.{ObservationQueue, PendingWrite}
use marimo_export.Observations.Queue.Valid as QueueLaws
use marimo_export.Observations.Queue.Valid.{occurrences_of}
use marimo_export.Observations.Queue.Valid.Pop as QueuePop
use marimo_export.Observations.Candidates
use marimo_export.Observations.Candidates.{CandidateQueue, ObservationCandidate}
use marimo_export.Observations.Candidates.Valid as CandidateLaws
use marimo_export.Observations.Candidates.Valid.Pop as CandidatePop
use marimo_export.Observations.Ledger.Writes
use marimo_export.Observations.Ledger.Writes.{
  Repository, Env, Work, write, candidate, persist, share, Failure,
}
use marimo_export.Observations.Ledger.Payment.{due, settled, persist_pays}
use marimo_export.Observations.Ledger.{
  Ledger, is_ready, work_from, settle, take_write, take_candidate, finish_close, remember_failure,
}
use marimo_export.Observations.Ledger.Calls.{record_observed_lem, record_deferred_lem}
use marimo_export.Observations.Ledger.Flow.{
  Event, recorded, deferred, closing, worked, IsSizedEvent, apply, credit, held_by_work,
  credit_of_work, held_candidate, entry, finish, IsSettled, IsSound, IsBalanced,
}

-- A step keeps the invariants, never forgets a failure, and keeps the books if none is remembered.
pub record Kept {Resolver Store : Type 0} (repo : Repository Store) (size : String → ℕ)
    (ℓ : Ledger Resolver Store) (gained came gone : String → ℕ) (ℓ' : Ledger Resolver Store)
    : Type 0 where
  pub sound : IsSound size ℓ'
  pub remembers : ℓ'.failure ≡ none → ℓ.failure ≡ none
  pub balanced : ℓ'.failure ≡ none → (q : String) → IsBalanced repo q (gained q) ℓ ℓ'
  pub scopes : ℓ'.failure ≡ none → (s : String) → IsSettled repo s (came s) (gone s) ℓ ℓ'

module _ (size : String → ℕ) where
  pub cleared_queue-IsValid : (q : ObservationQueue) → QueueLaws.IsValid size (Queue.clear q)
  unfolding Queue.revisions Queue.has_revisions
  cleared_queue-IsValid q = record {
    sized = tt;
    counted = refl;
    short = omega arith;
    light = omega arith;
    few = omega arith;
    distinct = tt;
    distinct_producers = tt;
    exact = λ p. refl;
  }

  pub cleared_candidates-IsValid :
      {Resolver : Type 0} (q : CandidateQueue Resolver)
      → CandidateLaws.IsValid size (Candidates.clear q)
  cleared_candidates-IsValid q = record {
    sized = tt;
    counted = refl;
    short = omega arith;
    light = omega arith;
    few = omega arith;
    distinct_scopes = tt;
    exact = λ p. refl;
  }

due-split :
    {Resolver : Type 0} (env : Env) (w : Work Resolver) (q : String)
    → due env w q ≡ held_by_work q (some w) + credit_of_work env (some w) q
due-split env (write w) q = omega arith
due-split env (candidate c) q = omega arith

stays_failed : (b : Bool) (f : Failure) → (if b then some f else some f) ≢ none
stays_failed true f e = absurd (ground arith)
stays_failed false f e = absurd (ground arith)

module _ {Resolver Store : Type 0} (repo : Repository Store) (size : String → ℕ) (env : Env)
    (ℓ : Ledger Resolver Store) (h : IsSound size ℓ) where
  finish_close-failure : (finish_close env ℓ).failure ≡ none → ℓ.failure ≡ none
  unfolding finish_close
  finish_close-failure e = ground arith

  settle-Kept :
      (w : Work Resolver) (r : Store × Option Failure)
      → ℓ.in_flight ≡ some w
      → ((q : String) → repo.revision q r.0 ≡ repo.revision q ℓ.store + settled r.1 (due env w q))
      → Kept repo size ℓ
          (credit_of_work env (some w))
          (λ s. 0)
          (λ s. held_candidate s (some w))
          (settle repo env ℓ r)
  unfolding settle
  settle-Kept w (s', none) held pays = record {
    sound = record { queue_valid = h.queue_valid; candidates_valid = h.candidates_valid };
    remembers = λ e. e;
    balanced = λ e q. rw held (omega (arith, pays q, due-split env w q));
    scopes = λ e s. rw held (omega arith);
  }
  settle-Kept w (s', some f) held pays = record {
    sound = record {
      queue_valid = cleared_queue-IsValid size ℓ.queue;
      candidates_valid = cleared_candidates-IsValid size ℓ.candidates;
    };
    remembers = λ e. absurd (stays_failed env.closes (remember_failure ℓ.failure f) e);
    balanced = λ e. absurd (stays_failed env.closes (remember_failure ℓ.failure f) e);
    scopes = λ e. absurd (stays_failed env.closes (remember_failure ℓ.failure f) e);
  }

  same-Kept : Kept repo size ℓ (λ q. 0) (λ s. 0) (λ s. 0) ℓ
  same-Kept = record {
    sound = h;
    remembers = λ e. e;
    balanced = λ e q. omega arith;
    scopes = λ e s. omega arith;
  }

  finish_close-Kept : Kept repo size ℓ (λ q. 0) (λ s. 0) (λ s. 0) (finish_close env ℓ)
  unfolding finish_close
  finish_close-Kept = record {
    sound = record { queue_valid = h.queue_valid; candidates_valid = h.candidates_valid };
    remembers = finish_close-failure;
    balanced = λ e q. omega arith;
    scopes = λ e s. omega arith;
  }

  take_candidate-Kept :
      ℓ.in_flight ≡ none
      → (r : CandidateQueue Resolver × Option (ObservationCandidate Resolver))
      → CandidateLaws.IsValid size r.0
      → ((s : String)
          → CandidateLaws.occurrences_of s r.0 + CandidatePop.carries s r.1
            ≡ CandidateLaws.occurrences_of s ℓ.candidates)
      → Kept repo size ℓ (λ q. 0) (λ s. 0) (λ s. 0) (take_candidate env ℓ r)
  unfolding take_candidate
  take_candidate-Kept free (rest, none) valid counts = finish_close-Kept
  take_candidate-Kept free (rest, some c) valid counts = record {
    sound = record { queue_valid = h.queue_valid; candidates_valid = valid };
    remembers = λ e. e;
    balanced = λ e q. rw free (omega arith);
    scopes = λ e s. rw free (omega (arith, counts s));
  }

  take_write-Kept :
      ℓ.in_flight ≡ none
      → (r : ObservationQueue × Option PendingWrite) → QueueLaws.IsValid size r.0
      → ((q : String) → occurrences_of q r.0 + QueuePop.carries q r.1 ≡ occurrences_of q ℓ.queue)
      → Kept repo size ℓ (λ q. 0) (λ s. 0) (λ s. 0) (take_write env ℓ r)
  unfolding take_write
  take_write-Kept free (rest, none) valid counts =
      let (left, kept, _) = CandidatePop.candidate_pop_lem size ℓ.candidates h.candidates_valid in
      take_candidate-Kept free (Candidates.pop ℓ.candidates) left kept
  take_write-Kept free (rest, some w) valid counts = record {
    sound = record { queue_valid = valid; candidates_valid = h.candidates_valid };
    remembers = λ e. e;
    balanced = λ e q. rw free (omega (arith, counts q));
    scopes = λ e s. rw free (omega arith);
  }

  work_from-Kept :
      (o : Option (Work Resolver))
      → ℓ.in_flight ≡ o
      → Kept repo size ℓ
          (credit_of_work env o)
          (λ s. 0)
          (λ s. held_candidate s o)
          (work_from repo env ℓ o)
  unfolding work_from
  work_from-Kept (some w) held =
      settle-Kept w (persist repo env w ℓ.store) held (λ q. persist_pays repo q env w ℓ.store)
  work_from-Kept none free =
      let (valid, counts, _) = QueuePop.pop_lem size ℓ.queue h.queue_valid in
      elim (Bool-cases (not ℓ.is_closed && is_ready ℓ)) [
        | inl go ↦ rw go (take_write-Kept free (Queue.pop ℓ.queue) valid counts)
        | inr stay ↦ rw stay same-Kept
      ]

module _ {Resolver Store : Type 0} (repo : Repository Store) (size : String → ℕ) where
  recorded-Kept :
      (ℓ : Ledger Resolver Store) (p : String) (o : ObservedInputs)
      → IsSound size ℓ
      → IsSized size o
      → Kept repo size ℓ
          (λ q. credit repo q (recorded p o) ℓ)
          (λ s. 0)
          (λ s. 0)
          (apply repo (recorded p o) ℓ)
  unfolding apply credit
  recorded-Kept ℓ p o h sized = elim (record_observed_lem size ℓ p o h.queue_valid sized) [
    | inl (e, ran) ↦ rw ran (
        same-Kept repo size (record { resolved = Writes.unmatched; opens = true; closes = true }) ℓ
          h)
    | inr (q', ran, added) ↦ rw ran (record {
      sound = record { queue_valid = added.valid; candidates_valid = h.candidates_valid };
      remembers = λ e. e;
      balanced = λ e q. omega (arith, added.counts q);
      scopes = λ e s. omega arith;
    })
  ]

  deferred-Kept :
      (ℓ : Ledger Resolver Store) (s : String) (o : ObservedInputs) (r : Resolver)
      → IsSound size ℓ
      → IsSized size o
      → Kept repo size ℓ
          (λ q. 0)
          (λ k. entry repo k (deferred s o r) ℓ)
          (λ k. 0)
          (apply repo (deferred s o r) ℓ)
  unfolding apply entry
  deferred-Kept ℓ s o r h sized = elim (record_deferred_lem size ℓ s o r h.candidates_valid sized) [
    | inl (e, ran) ↦ rw ran (
        same-Kept repo size (record { resolved = Writes.unmatched; opens = true; closes = true }) ℓ
          h)
    | inr (q', ran, added) ↦ rw ran (record {
      sound = record { queue_valid = h.queue_valid; candidates_valid = added.valid };
      remembers = λ e. e;
      balanced = λ e q. omega arith;
      scopes = λ e k. omega (arith, added.counts k);
    })
  ]

  pub apply-Kept :
      (ev : Event Resolver) (ℓ : Ledger Resolver Store)
      → IsSound size ℓ
      → IsSizedEvent size ev
      → Kept repo size ℓ
          (λ q. credit repo q ev ℓ)
          (λ s. entry repo s ev ℓ)
          (λ s. finish repo s ev ℓ)
          (apply repo ev ℓ)
  unfolding apply credit entry finish
  apply-Kept (recorded p o) ℓ h sized = recorded-Kept ℓ p o h sized
  apply-Kept (deferred s o r) ℓ h sized = deferred-Kept ℓ s o r h sized
  apply-Kept closing ℓ h sized = record {
    sound = record { queue_valid = h.queue_valid; candidates_valid = h.candidates_valid };
    remembers = λ e. e;
    balanced = λ e q. omega arith;
    scopes = λ e s. omega arith;
  }
  apply-Kept (worked env) ℓ h sized = work_from-Kept repo size env ℓ h ℓ.in_flight refl
