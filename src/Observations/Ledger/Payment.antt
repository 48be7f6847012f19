-- ===== src/Observations/Ledger/Payment.antt =====
-- What one `_persist` adds to the revisions.
use marimo_export.Prelude.{ℕ, zero, suc, ◌+◌, ◌-◌, String, Option, none, some, ◌≡◌, refl, arith}
use marimo_export.Observations.Inputs.{ObservedInputs}
use marimo_export.Observations.Queue.{observation, advance}
use marimo_export.Observations.Queue.Valid.Pop.{carries}
use marimo_export.Observations.Candidates.{ObservationCandidate}
use marimo_export.Observations.Ledger.Writes.{
  Outcome, done, busy, limit, broken, Failure, max_persistence_attempts, Repository, paid, share,
  retry_from, retry_write, failure_of, Work, write, candidate, Resolved, producer, unmatched,
  raised, Env, advance_step, after_record, record_step, persist_candidate, persist,
}

-- The same for a whole write: the amount if it succeeds, and nothing if it stops the worker.
abbrev pub settled : Option Failure → ℕ → ℕ
settled none n = n
settled (some f) n = 0

abbrev pub due_resolved : Resolved → ℕ → String → ℕ
due_resolved (producer p) n q = share p q n
due_resolved unmatched n q = 0
due_resolved raised n q = 0

-- The occurrences of producer `q` that a piece of work stands for.
abbrev pub due : {Resolver : Type 0} → Env → Work Resolver → String → ℕ
due env (write w) q = carries q (some w)
due env (candidate c) q = due_resolved env.resolved c.occurrences q

module _ {Store : Type 0} (repo : Repository Store) (q : String) where
  module _ (g : ℕ) (call : Store → Store × Outcome)
      (pays : (s : Store)
        → repo.revision q (call s).0 ≡ repo.revision q s + paid (call s).1 g) where
    retry_from_pays :
        (left : ℕ) (s : Store)
        → repo.revision q (retry_from left call s).0
          ≡ repo.revision q s + paid (retry_from left call s).1 g
    unfolding retry_from
    retry_from_pays zero s = pays s
    retry_from_pays (suc left) s = ground (arith, pays s, retry_from_pays left (call s).0)

    retry_write_pays :
        (s : Store)
        → repo.revision q (retry_write call s).0 ≡ repo.revision q s + paid (retry_write call s).1 g
    unfolding retry_write
    retry_write_pays s = retry_from_pays (max_persistence_attempts - 1) s

  settled-failure_of : (o : Outcome) (g : ℕ) → settled (failure_of o) g ≡ paid o g
  unfolding failure_of
  settled-failure_of done g = refl
  settled-failure_of busy g = refl
  settled-failure_of limit g = refl
  settled-failure_of broken g = refl

  advance_step_pays :
      (p : String) (n : ℕ) (s : Store)
      → repo.revision q (advance_step repo p n s).0
        ≡ repo.revision q s + settled (advance_step repo p n s).1 (share p q n)
  unfolding advance_step
  advance_step_pays p n s = ground (
    arith,
    settled-failure_of (retry_write (repo.advance_revision p n) s).1 (share p q n),
    retry_write_pays (share p q n) (repo.advance_revision p n) (repo.advance_pays p n q) s,
  )

  after_record_pays :
      (p : String) (n : ℕ) (s : Store) (t : Store) (o : Outcome)
      → repo.revision q t ≡ repo.revision q s + paid o (share p q n)
      → repo.revision q (after_record repo p n (t, o)).0
        ≡ repo.revision q s + settled (after_record repo p n (t, o)).1 (share p q n)
  unfolding after_record
  after_record_pays p n s t done h = h
  after_record_pays p n s t limit h = omega (arith, h, advance_step_pays p n t)
  after_record_pays p n s t busy h = h
  after_record_pays p n s t broken h = h

  record_step_pays :
      (p : String) (o : ObservedInputs) (n : ℕ) (s : Store)
      → repo.revision q (record_step repo p o n s).0
        ≡ repo.revision q s + settled (record_step repo p o n s).1 (share p q n)
  unfolding record_step
  record_step_pays p o n s =
      let r = retry_write (repo.record_write p o n) s in
      after_record_pays p n s r.0 r.1
        (retry_write_pays (share p q n) (repo.record_write p o n) (repo.record_pays p o n q) s)

  persist_candidate_pays :
      {Resolver : Type 0} (env : Env) (c : ObservationCandidate Resolver) (r : Resolved) (s : Store)
      → repo.revision q (persist_candidate repo env c r s).0
        ≡ repo.revision q s
          + settled (persist_candidate repo env c r s).1 (due_resolved r c.occurrences q)
  unfolding persist_candidate
  persist_candidate_pays env c unmatched s = omega arith
  persist_candidate_pays env c raised s = omega arith
  persist_candidate_pays env c (producer p) s =
      ground (arith, record_step_pays p c.observed c.occurrences s)

  -- A write of the worker that succeeds, after its retries and with its fallback for an
  -- oversized vector, adds to the producer's revision the occurrences that it stands for and
  -- changes no other; one that fails changes none.
  pub persist_pays :
      {Resolver : Type 0} (env : Env) (w : Work Resolver) (s : Store)
      → repo.revision q (persist repo env w s).0
        ≡ repo.revision q s + settled (persist repo env w s).1 (due env w q)
  unfolding persist
  persist_pays env (write (observation p)) s =
      ground (arith, record_step_pays p.producer_sha256 p.observed p.occurrences s)
  persist_pays env (write (advance a)) s =
      ground (arith, advance_step_pays a.producer_sha256 a.occurrences s)
  persist_pays env (candidate c) s = persist_candidate_pays env c env.resolved s
