-- ===== src/Observations/Candidates/Valid/Pop.antt =====
-- `pop` of _observations/candidates.py, oldest entry first.
use marimo_export.Prelude.{
  ℕ, ◌+◌, ◌≤◌, String, str_eq, str_eq_iff, ◌&&◌, not, Option, none, some, List, [], ◌∷◌, ◌≡◌, refl,
  arith, length, get_elem?, any, if◌then◌else◌, Bool-cases, inl, inr,
}
use marimo_export.Observations.Inputs.{max_pending_producers}
use marimo_export.Observations.Candidates.{
  ObservationCandidate, CandidateQueue, of_scope, has_scope, discard, pop_from, pop,
}
use marimo_export.Observations.Candidates.Valid.{IsValid, occurrences_of, count_of, Distinct}

has_scope-discard :
    (s k : String) (ss : List String)
    → has_scope s (discard k ss) ≡ (not (str_eq k s) && has_scope s ss)
unfolding discard
has_scope-discard s k [] = ground arith
has_scope-discard s k (x ∷ ss) =
    ground (arith, has_scope-discard s k ss, str_eq_iff x k, str_eq_iff k s, str_eq_iff x s)

discard-Distinct : (k : String) (ss : List String) → Distinct ss → Distinct (discard k ss)
unfolding discard
discard-Distinct k [] h = tt
discard-Distinct k (x ∷ ss) h = ground (arith, has_scope-discard x k ss, discard-Distinct k ss h.1)

length-discard-le : (k : String) (ss : List String) → length (discard k ss) ≤ length ss
unfolding discard
length-discard-le k [] = omega arith
length-discard-le k (x ∷ ss) = ground (arith, length-discard-le k ss)

module _ {Resolver : Type 0} where
  abbrev pub carries : String → Option (ObservationCandidate Resolver) → ℕ
  carries scope none = 0
  carries scope (some c) = count_of scope c

  -- What `pop` leaves is valid, the counts before are those after and the popped entry's, and the
  -- entry is the oldest.
  abbrev pub Popped : (String → ℕ) → CandidateQueue Resolver → Type 0
  Popped size q =
      IsValid size (pop q).0
      × ((s : String) → occurrences_of s (pop q).0 + carries s (pop q).1 ≡ occurrences_of s q)
      × ((pop q).1 ≡ get_elem? q.pending 0)

module _ {Resolver : Type 0} (size : String → ℕ) (bytes : ℕ) (scopes : List String) where
  abbrev queue : List (ObservationCandidate Resolver) → CandidateQueue Resolver
  queue cs = record { pending = cs; pending_bytes = bytes; scopes = scopes }

  abbrev left_scopes :
      ObservationCandidate Resolver → List (ObservationCandidate Resolver) → List String
  left_scopes c rest = if any (of_scope c.scope) rest then scopes else discard c.scope scopes

  left_exact :
      (c : ObservationCandidate Resolver) (rest : List (ObservationCandidate Resolver))
      → IsValid size (queue (c ∷ rest))
      → (length (left_scopes c rest) ≤ max_pending_producers)
        × Distinct (left_scopes c rest)
        × ((s : String) → has_scope s (left_scopes c rest) ≡ any (of_scope s) rest)
  left_exact c rest h = elim (Bool-cases (any (of_scope c.scope) rest)) [
    | inl there ↦
        rw there
          (h.few, h.distinct_scopes, λ s. ground (arith, h.exact s, there, str_eq_iff c.scope s))
    | inr gone ↦ rw gone (
      omega (arith, h.few, length-discard-le c.scope scopes),
      discard-Distinct c.scope scopes h.distinct_scopes,
      λ s.
          ground (arith, h.exact s, gone, str_eq_iff c.scope s, has_scope-discard s c.scope scopes),
    )
  ]

  pop_parts :
      (cs : List (ObservationCandidate Resolver)) → IsValid size (queue cs) → Popped size (queue cs)
  unfolding pop_from
  pop_parts [] h = (h, λ s. omega arith, refl)
  pop_parts (c ∷ rest) h =
      let (few, distinct, exact) = left_exact c rest h in
      (
        record {
          sized = h.sized.1;
          counted = omega (arith, h.counted);
          short = omega (arith, h.short);
          light = omega (arith, h.light);
          few = few;
          distinct_scopes = distinct;
          exact = exact;
        },
        λ s. omega arith,
        refl,
      )

-- From a valid candidate queue, pop takes the oldest entry if there is one, leaves a valid
-- queue, and the entry carries for every scope what the queue holds less than before.
pub candidate_pop_lem :
    {Resolver : Type 0} (size : String → ℕ) (q : CandidateQueue Resolver)
    → IsValid size q
    → Popped size q
candidate_pop_lem size q h = pop_parts size q.pending_bytes q.scopes q.pending h
