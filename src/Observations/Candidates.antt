-- ===== src/Observations/Candidates.antt =====
-- `CandidateQueue` of _observations/candidates.py. `Resolver` is the type of the callbacks that
-- identify the producer later; the queue only keeps them.
pub mod Valid
use Prim.Native.String.{len}
use marimo_export.Prelude.{
  ℕ, ◌+◌, ◌-◌, String, str_eq, Bool, ◌&&◌, ◌||◌, not, Option, none, some, List, [], ◌∷◌, ◌++◌,
  length, get_elem?, set, any, ltb, leb, ◌==◌, if◌then◌else◌, Result, ok, err,
}
use marimo_export.Prelude.Latest.{latest_index}
use marimo_export.Observations.Inputs.{
  ObservedInputs, byte_count, max_pending_observations, max_pending_bytes, max_pending_producers,
  max_observation_bytes, QueueError, too_large, too_many_producers, full, bad_scope, index_error,
}

pub record ObservationCandidate (Resolver : Type 0) : Type 0 where
  pub scope : String
  pub observed : ObservedInputs
  pub occurrences : ℕ
  pub resolve_producer : Resolver

pub record CandidateQueue (Resolver : Type 0) : Type 0 where
  pub pending : List (ObservationCandidate Resolver)
  pub pending_bytes : ℕ
  pub scopes : List String

abbrev pub has_scope : String → List String → Bool
has_scope scope ss = any (λ s. str_eq s scope) ss

unfoldable pub discard : String → List String → List String
discard scope [] = []
discard scope (s ∷ ss) = let rest = discard scope ss in if str_eq s scope then rest else s ∷ rest

module _ {Resolver : Type 0} where
  abbrev pub of_scope : String → ObservationCandidate Resolver → Bool
  of_scope scope c = str_eq c.scope scope

  abbrev pub is_nonempty : CandidateQueue Resolver → Bool
  is_nonempty q = ltb 0 (length q.pending)

  abbrev pub latest_scope_index : CandidateQueue Resolver → String → Option ℕ
  latest_scope_index q scope = latest_index (of_scope scope) q.pending

  -- The end of `add`: refused if the queue is full, and otherwise a new entry.
  unfoldable pub append :
      CandidateQueue Resolver
      → String
      → ObservedInputs
      → Resolver
      → Result QueueError (CandidateQueue Resolver)
  append q scope observed resolve =
      if leb max_pending_observations (length q.pending)
        || ltb max_pending_bytes (q.pending_bytes + byte_count observed)
      then err full
      else ok (record q {
        pending =
            q.pending
            ++ (record {
              scope = scope;
              observed = observed;
              occurrences = 1;
              resolve_producer = resolve;
            }
                ∷ []);
        pending_bytes = q.pending_bytes + byte_count observed;
        scopes = if has_scope scope q.scopes then q.scopes else scope ∷ q.scopes;
      })

  -- The middle of `add`: the scope's latest entry takes a repeated vector, and the new callback.
  unfoldable pub coalesce :
      CandidateQueue Resolver
      → String
      → ObservedInputs
      → Resolver
      → Result QueueError (CandidateQueue Resolver)
  coalesce q scope observed resolve = elim (latest_scope_index q scope) [
    | none ↦ append q scope observed resolve
    | some i ↦ elim (get_elem? q.pending i) [
      | none ↦ err index_error
      | some previous ↦
          if str_eq previous.observed.fingerprint observed.fingerprint
          then ok (record q {
            pending = set q.pending i (record {
              scope = scope;
              observed = observed;
              occurrences = previous.occurrences + 1;
              resolve_producer = resolve;
            });
          })
          else append q scope observed resolve
    ]
  ]

  unfoldable pub add :
      CandidateQueue Resolver
      → String
      → ObservedInputs
      → Resolver
      → Result QueueError (CandidateQueue Resolver)
  add q scope observed resolve =
      if len scope == 0 || ltb 1024 (len scope)
      then err bad_scope
      else if ltb max_observation_bytes (byte_count observed)
      then err too_large
      else if not (has_scope scope q.scopes) && leb max_pending_producers (length q.scopes)
      then err too_many_producers
      else coalesce q scope observed resolve

  unfoldable pub pop_from :
      CandidateQueue Resolver
      → List (ObservationCandidate Resolver)
      → CandidateQueue Resolver × Option (ObservationCandidate Resolver)
  pop_from q [] = (q, none)
  pop_from q (c ∷ rest) = (
    record {
      pending = rest;
      pending_bytes = q.pending_bytes - byte_count c.observed;
      scopes = if any (of_scope c.scope) rest then q.scopes else discard c.scope q.scopes;
    },
    some c,
  )

  abbrev pub pop :
      CandidateQueue Resolver → CandidateQueue Resolver × Option (ObservationCandidate Resolver)
  pop q = pop_from q q.pending

  abbrev pub clear : CandidateQueue Resolver → CandidateQueue Resolver
  clear q = record { pending = []; pending_bytes = 0; scopes = [] }
