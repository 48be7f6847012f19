-- ===== src/Observations/Candidates/Valid/Append.antt =====
-- The branch of `add` that appends an entry, or finds the queue full.
use marimo_export.Prelude.{
  ℕ, ◌+◌, ◌≤◌, ◌<◌, String, str_eq_iff, str_eq_self, true, [], ◌∷◌, ◌++◌, ◌≡◌, refl, arith, length,
  All-append, length-append, sum_by-append, any-append, if◌then◌else◌, ok, err, Bool-cases, inl,
  inr, ◌⊎◌, ltb, leb, ltb→lt, ltb→le, leb→le, leb→lt,
}
use marimo_export.Observations.Inputs.{
  ObservedInputs, byte_count, IsSized, max_pending_observations, max_pending_bytes,
  max_pending_producers, full,
}
use marimo_export.Observations.Candidates.{
  ObservationCandidate, CandidateQueue, of_scope, has_scope, append,
}
use marimo_export.Observations.Candidates.Valid.{IsValid, Added, count_of, Distinct}

module _ {Resolver : Type 0} (size : String → ℕ) (q : CandidateQueue Resolver) (scope : String)
    (observed : ObservedInputs) (resolve : Resolver) (h : IsValid size q)
    (sized : IsSized size observed)
    (room : (has_scope scope q.scopes ≡ true) ⊎ (length q.scopes < max_pending_producers)) where
  abbrev fresh : ObservationCandidate Resolver
  fresh = record { scope = scope; observed = observed; occurrences = 1; resolve_producer = resolve }

  abbrev appended : CandidateQueue Resolver
  appended = record q {
    pending = q.pending ++ fresh ∷ [];
    pending_bytes = q.pending_bytes + byte_count observed;
    scopes = if has_scope scope q.scopes then q.scopes else scope ∷ q.scopes;
  }

  entered_scopes : (length appended.scopes ≤ max_pending_producers) × Distinct appended.scopes
  entered_scopes = elim (Bool-cases (has_scope scope q.scopes)) [
    | inl known ↦ rw known (h.few, h.distinct_scopes)
    | inr new ↦ rw new (ground arith, (new, h.distinct_scopes))
  ]

  appended-Added :
      length q.pending < max_pending_observations
      → q.pending_bytes + byte_count observed ≤ max_pending_bytes
      → Added size q scope observed resolve appended
  appended-Added fits light = record {
    valid = record {
      sized = All-append (λ c. IsSized size c.observed) q.pending (fresh ∷ []) h.sized (sized, tt);
      counted =
          omega
            (arith, h.counted, sum_by-append (λ c. byte_count c.observed) q.pending (fresh ∷ []));
      short = omega (arith, length-append {0} q.pending (fresh ∷ []));
      light = light;
      few = entered_scopes.0;
      distinct_scopes = entered_scopes.1;
      exact = λ s.
          ground
            (arith, h.exact s, any-append (of_scope s) q.pending (fresh ∷ []), str_eq_iff scope s);
    };
    counts = λ s. ground (arith, sum_by-append (count_of s) q.pending (fresh ∷ []));
    at = length q.pending;
    latest = record {
      before = q.pending;
      item = fresh;
      after = [];
      splits = refl;
      index = refl;
      passes = str_eq_self scope;
      last = refl;
    };
    newest = refl;
    resolver = refl;
  }

  -- Whether the queue has room for one more entry.
  abbrev pub IsFull : Type 0
  IsFull =
      (max_pending_observations ≤ length q.pending)
      ⊎ (max_pending_bytes < q.pending_bytes + byte_count observed)

  abbrev pub HasSpace : Type 0
  HasSpace =
      (length q.pending < max_pending_observations)
      × (q.pending_bytes + byte_count observed ≤ max_pending_bytes)

  pub append_lem :
      (append q scope observed resolve ≡ err full) × IsFull
      ⊎ (q' : CandidateQueue Resolver) × (append q scope observed resolve ≡ ok q')
        × HasSpace
        × Added size q scope observed resolve q'
  unfolding append
  append_lem = elim (Bool-cases (leb max_pending_observations (length q.pending))) [
    | inl many ↦ inl (rw many, inl (leb→le _ _ many))
    | inr fits ↦ elim (Bool-cases (ltb max_pending_bytes (q.pending_bytes + byte_count observed))) [
      | inl heavy ↦ inl (rw (fits, heavy), inr (ltb→lt _ _ heavy))
      | inr light ↦
          let space : HasSpace = (leb→lt _ _ fits, ltb→le _ _ light) in
          inr (appended, rw (fits, light), space, appended-Added space.0 space.1)
    ]
  ]
