-- ===== src/Repository/Journal.antt =====
-- `ObservationRepository` of _repository/observations.py over the tables: what the ledger calls,
-- the revision that it reads and `clear`; a write is one transaction of the catalog. `locks` says
-- of each coming attempt to begin a transaction whether another process holds the lock; none is
-- held after its end.
use marimo_export.Prelude.{
  ℕ, ◌+◌, String, Bool, true, false, List, [], ◌∷◌, ◌≡◌, arith, ltb, not, ◌&&◌, leb, if◌then◌else◌,
  Result, ok, err, Bool-cases, inl, inr,
}
use marimo_export.Format.{codes, is_sha256}
use marimo_export.Observations.Inputs.{ObservedInputs, byte_count}
use marimo_export.Observations.Ledger.Writes.{
  Outcome, done, busy, limit, broken, Repository, paid, share,
}
use marimo_export.Repository.Observations.{
  Db, DbError, Limits, bad_argument, over_limit, overflow, corrupt, integrity, max_sqlite_integer,
  advance, record_observation, observation_revision, clear_observations,
}
use marimo_export.Repository.Observations.Revisions.{
  revision, advance_lem, Recorded, record_observation_lem,
}

pub record Journal : Type 0 where
  pub db : Db
  pub locks : List Bool

-- The transaction's answer, as the ledger sees it.
unfoldable pub finish : Journal → Result DbError (Db × ℕ) → Journal × Outcome
finish j (ok (db', r)) = (record j { db = db' }, done)
finish j (err over_limit) = (j, limit)
finish j (err overflow) = (j, broken)
finish j (err bad_argument) = (j, broken)
finish j (err corrupt) = (j, broken)
finish j (err integrity) = (j, broken)

-- The write transaction: busy while the lock is held, rolled back on an error.
unfoldable pub transact : (Db → Result DbError (Db × ℕ)) → Db → List Bool → Journal × Outcome
unfolding finish
transact call db [] = finish (record { db = db; locks = [] }) (call db)
transact call db (true ∷ locks) = (record { db = db; locks = locks }, busy)
transact call db (false ∷ locks) = finish (record { db = db; locks = locks }) (call db)

-- `digest(producer_sha256)` and `positive_integer(occurrences)`
unfoldable pub are_arguments : String → ℕ → Bool
are_arguments p n = is_sha256 (codes p) && (ltb 0 n && leb n max_sqlite_integer)

module _ (limits : Limits) (now : ℕ) (input_names : ObservedInputs → List ℕ) where
  unfoldable pub record_write : String → ObservedInputs → ℕ → Journal → Journal × Outcome
  unfolding transact are_arguments
  record_write p o n j =
      if not (are_arguments p n)
      then (j, broken)
      else if ltb limits.observation_bytes (byte_count o)
      then (j, limit)
      else transact
          (λ db. record_observation db p o.fingerprint (input_names o) o.values_bytes n now limits)
          j.db j.locks

  unfoldable pub advance_revision : String → ℕ → Journal → Journal × Outcome
  unfolding transact are_arguments
  advance_revision p n j =
      if not (are_arguments p n)
      then (j, broken)
      else transact (λ db. advance db p n now) j.db j.locks

-- `ObservationRepository.revision` and `clear`
unfoldable pub read_revision : String → Journal → Result DbError ℕ
unfolding observation_revision
read_revision p j =
    if not (is_sha256 (codes p)) then err bad_argument else observation_revision j.db p

unfoldable pub clear : String → Journal → Journal × Outcome
unfolding transact clear_observations
clear p j =
    if not (is_sha256 (codes p))
    then (j, broken)
    else transact (λ db. ok (clear_observations db p)) j.db j.locks

finish_pays :
    (p : String) (n : ℕ) (q : String) (db : Db) (locks : List Bool) (r : Result DbError (Db × ℕ))
    → Recorded db p n r
    → revision q (finish (record { db = db; locks = locks }) r).0.db
      ≡ revision q db + paid (finish (record { db = db; locks = locks }) r).1 (share p q n)
unfolding finish
finish_pays p n q db locks r (inl (e, _)) = rw e (omega arith)
finish_pays p n q db locks r (inr (inl (e, _))) = rw e (omega arith)
finish_pays p n q db locks r (inr (inr (inl (e, _)))) = rw e (omega arith)
finish_pays p n q db locks r (inr (inr (inr (db', e, _, revs)))) = rw e (revs q)

transact_pays :
    (p : String) (n : ℕ) (q : String) (call : Db → Result DbError (Db × ℕ))
    → ((db : Db) → Recorded db p n (call db))
    → (db : Db) (locks : List Bool)
    → revision q (transact call db locks).0.db
      ≡ revision q db + paid (transact call db locks).1 (share p q n)
unfolding transact
transact_pays p n q call h db [] = finish_pays p n q db [] (call db) (h db)
transact_pays p n q call h db (true ∷ locks) = omega arith
transact_pays p n q call h db (false ∷ locks) = finish_pays p n q db locks (call db) (h db)

module _ (limits : Limits) (now : ℕ) (input_names : ObservedInputs → List ℕ) where
  -- A recorded vector that commits raises its producer's revision by the occurrences and no
  -- other; any other end of the call, a held lock and a vector over the limit among them,
  -- changes no revision.
  pub record_write_pays :
      (p : String) (o : ObservedInputs) (n : ℕ) (q : String) (j : Journal)
      → revision q (record_write limits now input_names p o n j).0.db
        ≡ revision q j.db + paid (record_write limits now input_names p o n j).1 (share p q n)
  unfolding record_write
  record_write_pays p o n q j = elim (Bool-cases (not (are_arguments p n))) [
    | inl bad ↦ rw bad (omega arith)
    | inr good ↦ elim (Bool-cases (ltb limits.observation_bytes (byte_count o))) [
      | inl large ↦ rw (good, large) (omega arith)
      | inr small ↦
          rw (good, small)
            (transact_pays p n q
              (λ db.
                record_observation db p o.fingerprint (input_names o) o.values_bytes n now limits)
              (λ db.
                record_observation_lem db p o.fingerprint (input_names o) o.values_bytes n now
                  limits)
              j.db j.locks)
    ]
  ]

  pub advance_revision_pays :
      (p : String) (n : ℕ) (q : String) (j : Journal)
      → revision q (advance_revision limits now input_names p n j).0.db
        ≡ revision q j.db + paid (advance_revision limits now input_names p n j).1 (share p q n)
  unfolding advance_revision
  advance_revision_pays p n q j = elim (Bool-cases (not (are_arguments p n))) [
    | inl bad ↦ rw bad (omega arith)
    | inr good ↦ rw good (
        transact_pays p n q (λ db. advance db p n now) (λ db. inr (advance_lem db p n now)) j.db
          j.locks)
  ]

  -- The tables are a repository for the ledger.
  abbrev pub journal_repository : Repository Journal
  journal_repository = record {
    record_write = record_write limits now input_names;
    advance_revision = advance_revision limits now input_names;
    revision = λ q j. revision q j.db;
    record_pays = record_write_pays;
    advance_pays = advance_revision_pays;
  }
