-- ===== src/Observations/Ledger/Writes.antt =====
-- What the worker does with one write: `_persist`, `_retry_write`, and the repository that it calls.
use marimo_export.Prelude.{
  ℕ, zero, suc, String, Bool, Option, none, some, ◌≡◌, if◌then◌else◌, ◌+◌, ◌-◌, str_eq, not,
}
use marimo_export.Format.{codes, is_sha256}
use marimo_export.Observations.Inputs.{ObservedInputs}
use marimo_export.Observations.Queue.{PendingWrite, observation, advance}
use marimo_export.Observations.Candidates.{ObservationCandidate}

-- How a call of the repository ends: it returns, or raises `RepositoryBusyError`,
-- `RepositoryLimitError` or another exception.
pub data Outcome : Type 0 where
  done busy limit broken : Outcome

-- What stops the worker.
pub data Failure : Type 0 where
  busy_failure limit_failure broken_failure resolver_failure digest_failure open_failure
        close_failure :
      Failure

-- What a call adds to a revision: the amount if it returns, and nothing if it raises.
abbrev pub paid : Outcome → ℕ → ℕ
paid done n = n
paid busy n = 0
paid limit n = 0
paid broken n = 0

abbrev pub share : String → String → ℕ → ℕ
share p q n = if str_eq p q then n else 0

-- The part of the repository that the ledger calls. Each call is one transaction: it raises the
-- producer's revision by the occurrences and no other, or raises and changes no revision.
pub record Repository (Store : Type 0) : Type 0 where
  pub record_write : String → ObservedInputs → ℕ → Store → Store × Outcome
  pub advance_revision : String → ℕ → Store → Store × Outcome
  pub revision : String → Store → ℕ
  pub record_pays :
      (p : String) (o : ObservedInputs) (n : ℕ) (q : String) (s : Store)
      → revision q (record_write p o n s).0
        ≡ revision q s + paid (record_write p o n s).1 (share p q n)
  pub advance_pays :
      (p : String) (n : ℕ) (q : String) (s : Store)
      → revision q (advance_revision p n s).0
        ≡ revision q s + paid (advance_revision p n s).1 (share p q n)

abbrev pub max_persistence_attempts : ℕ
max_persistence_attempts = 3

-- `_retry_write`, with the attempts that are left after the next one. The sleep between two
-- attempts is not modelled.
unfoldable pub retry_from :
    {Store : Type 0} → ℕ → (Store → Store × Outcome) → Store → Store × Outcome
retry_from zero call s = call s
retry_from (suc left) call s = elim (call s).1 [
  | busy ↦ retry_from left call (call s).0
  | done ↦ call s
  | limit ↦ call s
  | broken ↦ call s
]

unfoldable pub retry_write : {Store : Type 0} → (Store → Store × Outcome) → Store → Store × Outcome
unfolding retry_from
retry_write call s = retry_from (max_persistence_attempts - 1) call s

unfoldable pub failure_of : Outcome → Option Failure
failure_of done = none
failure_of busy = some busy_failure
failure_of limit = some limit_failure
failure_of broken = some broken_failure

-- What the worker takes from the two queues.
pub data Work (Resolver : Type 0) : Type 0 where
  write : PendingWrite → Work Resolver
  candidate : ObservationCandidate Resolver → Work Resolver

-- What the candidate's callback does when it is called: it returns a producer or None, or raises.
pub data Resolved : Type 0 where
  producer : String → Resolved
  unmatched : Resolved
  raised : Resolved

-- What the surroundings answer to one `_persist`: the callback, and the opening and
-- the closing of a repository.
pub record Env : Type 0 where
  pub resolved : Resolved
  pub opens : Bool
  pub closes : Bool

module _ {Store : Type 0} (repo : Repository Store) where
  unfoldable pub advance_step : String → ℕ → Store → Store × Option Failure
  unfolding retry_write failure_of
  advance_step p n s = let r = retry_write (repo.advance_revision p n) s in (r.0, failure_of r.1)

  -- A vector over the repository's limits still counts as a revision.
  unfoldable pub after_record : String → ℕ → Store × Outcome → Store × Option Failure
  unfolding advance_step
  after_record p n (s, done) = (s, none)
  after_record p n (s, limit) = advance_step p n s
  after_record p n (s, busy) = (s, some busy_failure)
  after_record p n (s, broken) = (s, some broken_failure)

  unfoldable pub record_step : String → ObservedInputs → ℕ → Store → Store × Option Failure
  unfolding after_record retry_write
  record_step p o n s = after_record p n (retry_write (repo.record_write p o n) s)

  unfoldable pub persist_candidate :
      {Resolver : Type 0}
      → Env
      → ObservationCandidate Resolver
      → Resolved
      → Store
      → Store × Option Failure
  unfolding record_step
  persist_candidate env c unmatched s = (s, none)
  persist_candidate env c raised s = (s, some resolver_failure)
  persist_candidate env c (producer p) s =
      if not (is_sha256 (codes p))
      then (s, some digest_failure)
      else if not env.opens
      then (s, some open_failure)
      else record_step p c.observed c.occurrences s

  unfoldable pub persist :
      {Resolver : Type 0} → Env → Work Resolver → Store → Store × Option Failure
  unfolding persist_candidate
  persist env (candidate c) s = persist_candidate env c env.resolved s
  persist env (write (observation p)) s =
      if not env.opens
      then (s, some open_failure)
      else record_step p.producer_sha256 p.observed p.occurrences s
  persist env (write (advance a)) s =
      if not env.opens
      then (s, some open_failure)
      else advance_step a.producer_sha256 a.occurrences s
