-- ===== src/Observations/Candidates/Valid.antt =====
-- The invariant of `CandidateQueue`, and what `add` makes of a queue that meets it.
mod Append
mod Coalesce
pub mod Add
pub mod Pop
use marimo_export.Prelude.{
  ℕ, ◌+◌, ◌≤◌, String, str_eq, Bool, false, List, [], ◌∷◌, ◌≡◌, length, any, All, sum_by,
  if◌then◌else◌, ◌&&◌,
}
use marimo_export.Prelude.Latest.{IsLatest}
use marimo_export.Observations.Inputs.{
  ObservedInputs, byte_count, IsSized, max_pending_observations, max_pending_bytes,
  max_pending_producers,
}
use marimo_export.Observations.Candidates.{
  ObservationCandidate, CandidateQueue, of_scope, has_scope,
}

abbrev pub Distinct : List String → Type 0
Distinct [] = Unit
Distinct (s ∷ ss) = (has_scope s ss ≡ false) × Distinct ss

module _ {Resolver : Type 0} where
  abbrev pub total_bytes : List (ObservationCandidate Resolver) → ℕ
  total_bytes = sum_by (λ c. byte_count c.observed)

  abbrev pub count_of : String → ObservationCandidate Resolver → ℕ
  count_of scope c = if of_scope scope c then c.occurrences else 0

  abbrev pub occurrences_of : String → CandidateQueue Resolver → ℕ
  occurrences_of scope q = sum_by (count_of scope) q.pending

  -- Whether the latest entry of the scope, if there is one, has the vector's fingerprint.
  unfoldable pub repeats : String → ObservedInputs → List (ObservationCandidate Resolver) → Bool
  repeats scope observed [] = false
  repeats scope observed (c ∷ cs) =
      let later = repeats scope observed cs in
      if any (of_scope scope) cs
      then later
      else of_scope scope c && str_eq c.observed.fingerprint observed.fingerprint

  pub record IsValid (size : String → ℕ) (q : CandidateQueue Resolver) : Type 0 where
    pub sized : All (λ c. IsSized size c.observed) q.pending
    pub counted : q.pending_bytes ≡ total_bytes q.pending
    pub short : length q.pending ≤ max_pending_observations
    pub light : q.pending_bytes ≤ max_pending_bytes
    pub few : length q.scopes ≤ max_pending_producers
    pub distinct_scopes : Distinct q.scopes
    -- A scope holds a place exactly while an entry of it waits.
    pub exact : (s : String) → has_scope s q.scopes ≡ any (of_scope s) q.pending

  pub record Added (size : String → ℕ) (q : CandidateQueue Resolver) (scope : String)
      (observed : ObservedInputs) (resolve : Resolver) (q' : CandidateQueue Resolver) : Type 0 where
    pub valid : IsValid size q'
    pub counts :
        (s : String) → occurrences_of s q' ≡ occurrences_of s q + (if str_eq scope s then 1 else 0)
    pub at : ℕ
    pub latest : IsLatest (of_scope scope) q'.pending at
    pub newest : latest.item.observed ≡ observed
    pub resolver : latest.item.resolve_producer ≡ resolve
