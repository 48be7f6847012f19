-- ===== src/Observations/Ledger.antt =====
-- `ObservationLedger` of _observations/ledger.py: the state behind its condition variable, the
-- calls of its clients, and the worker's loop in the two steps between which the lock is free.
-- The repository is an interface; `Repository.Observations` implements it.
pub mod Writes
pub mod Payment
pub mod Flow
mod Calls
pub mod Sound
pub mod Conserved
use marimo_export.Prelude.{
  ℕ, String, Bool, true, false, ◌&&◌, ◌||◌, not, Option, none, some, if◌then◌else◌, Result, ok, err,
  ◌>>=◌, ◌>>◌, raise_if, is_none, [],
}
use marimo_export.Format.{codes, is_sha256}
use marimo_export.Observations.Inputs.{ObservedInputs, QueueError}
use marimo_export.Observations.Queue
use marimo_export.Observations.Queue.{
  ObservationQueue, PendingObservation, RevisionAdvance, PendingWrite, observation, advance,
}
use marimo_export.Observations.Candidates
use marimo_export.Observations.Candidates.{ObservationCandidate, CandidateQueue}
use marimo_export.Observations.Ledger.Writes.{
  Repository, Failure, Env, Work, write, candidate, persist, close_failure,
}

pub data LedgerError : Type 0 where
  -- `ObservationPersistenceError`, raised from the remembered failure
  persistence : Failure → LedgerError
  -- `RuntimeError("The observation ledger is closed")`
  closed : LedgerError
  bad_producer : LedgerError
  rejected : QueueError → LedgerError

pub record Ledger (Resolver Store : Type 0) : Type 0 where
  pub queue : ObservationQueue
  pub candidates : CandidateQueue Resolver
  -- `_working`, with what the worker holds meanwhile
  pub in_flight : Option (Work Resolver)
  pub is_closing : Bool
  pub is_closed : Bool
  pub failure : Option Failure
  pub store : Store

abbrev pub lift : {A : Type 0} → Result QueueError A → Result LedgerError A
lift (ok a) = ok a
lift (err e) = err (rejected e)

-- The first failure is kept.
abbrev pub remember_failure : Option Failure → Failure → Failure
remember_failure (some f) g = f
remember_failure none g = g

module _ {Resolver Store : Type 0} where
  abbrev pub init : Store → Ledger Resolver Store
  init s = record {
    queue = Queue.init;
    candidates = record { pending = []; pending_bytes = 0; scopes = [] };
    in_flight = none;
    is_closing = false;
    is_closed = false;
    failure = none;
    store = s;
  }

  unfoldable pub require_recording : Ledger Resolver Store → Result LedgerError (Unit {0})
  require_recording ℓ = elim ℓ.failure [
    | some f ↦ err (persistence f)
    | none ↦ raise_if (ℓ.is_closing || ℓ.is_closed) closed
  ]

  -- `record` with the producer that the caller names. The first check and the second are one here:
  -- nothing of the ledger is read between them.
  unfoldable pub record_observed :
      Ledger Resolver Store → String → ObservedInputs → Result LedgerError (Ledger Resolver Store)
  unfolding require_recording
  record_observed ℓ producer observed = do
    require_recording ℓ
    raise_if (not (is_sha256 (codes producer))) bad_producer
    queue ← lift (Queue.add ℓ.queue producer observed)
    ok (record ℓ { queue = queue })

  unfoldable pub record_deferred :
      Ledger Resolver Store
      → String
      → ObservedInputs
      → Resolver
      → Result LedgerError (Ledger Resolver Store)
  unfolding require_recording
  record_deferred ℓ scope observed resolve = do
    require_recording ℓ
    candidates ← lift (Candidates.add ℓ.candidates scope observed resolve)
    ok (record ℓ { candidates = candidates })

  -- `close` up to the join of the worker.
  abbrev pub close : Ledger Resolver Store → Ledger Resolver Store
  close ℓ = record ℓ { is_closing = true }

  -- What `flush` waits for.
  abbrev pub is_idle : Ledger Resolver Store → Bool
  is_idle ℓ =
      not (Queue.is_nonempty ℓ.queue)
      && not (Candidates.is_nonempty ℓ.candidates)
      && is_none ℓ.in_flight

  abbrev pub discard_pending : Ledger Resolver Store → Ledger Resolver Store
  discard_pending ℓ = record ℓ {
    queue = Queue.clear ℓ.queue;
    candidates = Candidates.clear ℓ.candidates;
  }

  -- The test that the worker waits for at the head of its loop.
  abbrev pub is_ready : Ledger Resolver Store → Bool
  is_ready ℓ = Queue.is_nonempty ℓ.queue || Candidates.is_nonempty ℓ.candidates || ℓ.is_closing

  -- `_finish_close`: a close that raises is remembered like any other failure.
  unfoldable pub finish_close : Env → Ledger Resolver Store → Ledger Resolver Store
  finish_close env ℓ = record ℓ {
    is_closed = true;
    failure = if env.closes then ℓ.failure else some (remember_failure ℓ.failure close_failure);
  }

  -- `self._queue.pop() or self._candidates.pop()`; with nothing left the worker ends, closed.
  unfoldable pub take_candidate :
      Env
      → Ledger Resolver Store
      → CandidateQueue Resolver × Option (ObservationCandidate Resolver)
      → Ledger Resolver Store
  unfolding finish_close
  take_candidate env ℓ (rest, none) = finish_close env ℓ
  take_candidate env ℓ (rest, some c) = record ℓ {
    candidates = rest;
    in_flight = some (candidate c);
  }

  unfoldable pub take_write :
      Env → Ledger Resolver Store → ObservationQueue × Option PendingWrite → Ledger Resolver Store
  unfolding take_candidate
  take_write env ℓ (rest, some w) = record ℓ { queue = rest; in_flight = some (write w) }
  take_write env ℓ (rest, none) = take_candidate env ℓ (Candidates.pop ℓ.candidates)

  module _ (repo : Repository Store) where
    -- After `_persist`: on a failure all that waits is dropped and the worker ends, closed.
    unfoldable pub settle :
        Env → Ledger Resolver Store → Store × Option Failure → Ledger Resolver Store
    unfolding finish_close
    settle env ℓ (s, none) = record ℓ { store = s; in_flight = none }
    settle env ℓ (s, some f) = finish_close env (record ℓ {
      queue = Queue.clear ℓ.queue;
      candidates = Candidates.clear ℓ.candidates;
      in_flight = none;
      failure = some (remember_failure ℓ.failure f);
      store = s;
    })

    unfoldable pub work_from :
        Env → Ledger Resolver Store → Option (Work Resolver) → Ledger Resolver Store
    unfolding settle take_write
    work_from env ℓ (some w) = settle env ℓ (persist repo env w ℓ.store)
    work_from env ℓ none =
        if not ℓ.is_closed && is_ready ℓ then take_write env ℓ (Queue.pop ℓ.queue) else ℓ

    -- One step of the worker: it finishes what it holds, or takes the next piece when it may.
    abbrev pub work : Env → Ledger Resolver Store → Ledger Resolver Store
    work env ℓ = work_from env ℓ ℓ.in_flight
