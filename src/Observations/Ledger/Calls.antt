-- ===== src/Observations/Ledger/Calls.antt =====
-- What `record` with a producer and `record` with a resolver come to on a sound ledger.
use marimo_export.Prelude.{ℕ, String, ◌≡◌, ok, err, Bool-cases, Result-cases, inl, inr, ◌⊎◌}
use marimo_export.Format.{codes, is_sha256}
use marimo_export.Observations.Inputs.{ObservedInputs, IsSized, too_large, too_many_producers}
use marimo_export.Observations.Queue.{ObservationQueue}
use marimo_export.Observations.Queue.Valid as QueueLaws
use marimo_export.Observations.Queue.Valid.{occurrences_of}
use marimo_export.Observations.Queue.Valid.Add as QueueAdd
use marimo_export.Observations.Candidates
use marimo_export.Observations.Candidates.{CandidateQueue, ObservationCandidate}
use marimo_export.Observations.Candidates.Valid as CandidateLaws
use marimo_export.Observations.Candidates.Valid.Add as CandidateAdd
use marimo_export.Observations.Ledger.{
  LedgerError, Ledger, require_recording, record_observed, record_deferred,
}

module _ {Resolver Store : Type 0} (size : String → ℕ) (ℓ : Ledger Resolver Store) where
  pub record_observed_lem :
      (p : String) (o : ObservedInputs)
      → QueueLaws.IsValid size ℓ.queue
      → IsSized size o
      → ((e : LedgerError) × (record_observed ℓ p o ≡ err e))
        ⊎ ((q' : ObservationQueue) × (record_observed ℓ p o ≡ ok (record ℓ { queue = q' }))
            × QueueLaws.Added size ℓ.queue p o q')
  unfolding record_observed
  record_observed_lem p o h sized = elim (Result-cases (require_recording ℓ)) [
    | inl (e, stopped) ↦ inl (e, rw stopped)
    | inr (u, fine) ↦ elim (Bool-cases (is_sha256 (codes p))) [
      | inr bad ↦ inl (LedgerError.bad_producer, rw (fine, bad))
      | inl good ↦ elim (QueueAdd.add_lem size ℓ.queue p o h sized) [
        | inl (ran, _) ↦ inl (LedgerError.rejected too_large, rw (fine, good, ran))
        | inr (inl (ran, _, _, _)) ↦
            inl (LedgerError.rejected too_many_producers, rw (fine, good, ran))
        | inr (inr (q', ran, small, room, added)) ↦ inr (q', rw (fine, good, ran), added)
      ]
    ]
  ]

  pub record_deferred_lem :
      (s : String) (o : ObservedInputs) (r : Resolver)
      → CandidateLaws.IsValid size ℓ.candidates
      → IsSized size o
      → ((e : LedgerError) × (record_deferred ℓ s o r ≡ err e))
        ⊎ ((q' : CandidateQueue Resolver) × (record_deferred ℓ s o r
              ≡ ok (record ℓ { candidates = q' }))
            × CandidateLaws.Added size ℓ.candidates s o r q')
  unfolding record_deferred
  record_deferred_lem s o r h sized = elim (Result-cases (require_recording ℓ)) [
    | inl (e, stopped) ↦ inl (e, rw stopped)
    | inr (u, fine) ↦ elim (Result-cases (Candidates.add ℓ.candidates s o r)) [
      | inl (e, ran) ↦ inl (LedgerError.rejected e, rw (fine, ran))
      | inr (q', ran) ↦
          inr (q', rw (fine, ran), CandidateAdd.add-Added size ℓ.candidates s o r h sized ran)
    ]
  ]
