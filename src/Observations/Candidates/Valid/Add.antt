-- ===== src/Observations/Candidates/Valid/Add.antt =====
-- `add` of _observations/candidates.py on every branch.
use Prim.Native.String.{len}
use marimo_export.Prelude.{
  ℕ, ◌+◌, ◌≤◌, ◌<◌, String, true, false, ◌||◌, ◌&&◌, not, ◌≡◌, ◌∙◌, arith, length, ok, err,
  Bool-cases, inl, inr, ◌⊎◌, ltb, leb, ltb→lt, ltb→le, ◌==◌,
}
use marimo_export.Observations.Inputs.{
  ObservedInputs, byte_count, IsSized, max_pending_observations, max_pending_bytes,
  max_pending_producers, max_observation_bytes, too_large, too_many_producers, full, bad_scope,
}
use marimo_export.Observations.Candidates.{CandidateQueue, has_scope, coalesce, add}
use marimo_export.Observations.Candidates.Valid.Coalesce.{coalesce_lem}
use marimo_export.Observations.Candidates.Valid.{IsValid, Added, repeats}

module _ {Resolver : Type 0} (size : String → ℕ) (q : CandidateQueue Resolver) (scope : String)
    (observed : ObservedInputs) (resolve : Resolver) where
  abbrev pub HasRoom : Type 0
  HasRoom = (has_scope scope q.scopes ≡ true) ⊎ (length q.scopes < max_pending_producers)

  abbrev pub HasScope : Type 0
  HasScope = (0 < len scope) × (len scope ≤ 1024)

  -- The outcomes of `add`, each with the condition under which it comes.
  abbrev pub AddOutcome : Type 0
  AddOutcome =
      (add q scope observed resolve ≡ err bad_scope) × ((len scope ≡ 0) ⊎ (1024 < len scope))
      ⊎ (add q scope observed resolve ≡ err too_large)
        × HasScope
        × (max_observation_bytes < byte_count observed)
      ⊎ (add q scope observed resolve ≡ err too_many_producers)
        × HasScope
        × (byte_count observed ≤ max_observation_bytes)
        × (¬ HasRoom)
      ⊎ (add q scope observed resolve ≡ err full)
        × HasScope
        × (byte_count observed ≤ max_observation_bytes)
        × HasRoom
        × (repeats scope observed q.pending ≡ false)
        × ((max_pending_observations ≤ length q.pending)
            ⊎ (max_pending_bytes < q.pending_bytes + byte_count observed))
      ⊎ (q' : CandidateQueue Resolver) × (add q scope observed resolve ≡ ok q')
        × HasScope
        × (byte_count observed ≤ max_observation_bytes)
        × HasRoom
        × ((repeats scope observed q.pending ≡ true)
            ⊎ (length q.pending < max_pending_observations)
              × (q.pending_bytes + byte_count observed ≤ max_pending_bytes))
        × Added size q scope observed resolve q'

  accepted :
      (h : IsValid size q) (sized : IsSized size observed) (room : HasRoom)
      → add q scope observed resolve ≡ coalesce q scope observed resolve
      → HasScope
      → byte_count observed ≤ max_observation_bytes
      → AddOutcome
  accepted h sized room e named small =
      elim (coalesce_lem size q scope observed resolve h sized room) [
        | inl (ran, new, is_full) ↦
            inr (inr (inr (inl (e ∙ ran, named, small, room, new, is_full))))
        | inr (q', ran, taken, added) ↦
            inr (inr (inr (inr (q', e ∙ ran, named, small, room, taken, added))))
      ]

  no_room : has_scope scope q.scopes ≡ false → max_pending_producers ≤ length q.scopes → ¬ HasRoom
  no_room new many (inl known) = absurd (ground arith)
  no_room new many (inr few) = absurd (omega arith)

  -- Where a vector's fingerprint fixes its size: from a valid candidate queue, add ends in
  -- exactly one of five ways: it refuses a bad scope, an oversized vector, a new scope when 32
  -- are held, or, where the scope's latest entry has another fingerprint or there is none, a
  -- vector for which the queue has no room; or else, a repeated vector on a full queue among
  -- these, it gives a valid queue with one occurrence more of the scope, every other count
  -- unchanged and the vector and its resolver as the scope's latest entry.
  pub candidate_add_lem : IsValid size q → IsSized size observed → AddOutcome
  unfolding add
  candidate_add_lem h sized = elim (Bool-cases (len scope == 0 || ltb 1024 (len scope))) [
    | inl bad ↦ inl (rw bad, ground arith)
    | inr named ↦
        let named' : HasScope = ground arith in
        elim (Bool-cases (ltb max_observation_bytes (byte_count observed))) [
          | inl large ↦ inr (inl (rw (named, large), named', ltb→lt _ _ large))
          | inr small ↦
              elim (Bool-cases
                (not (has_scope scope q.scopes) && leb max_pending_producers (length q.scopes))) [
                  | inl many ↦ inr (
                      inr (
                        inl (
                          rw (named, small, many),
                          named',
                          ltb→le _ _ small,
                          no_room (ground arith) (ground arith),
                        )))
                  | inr room ↦
                      accepted h sized (ground arith) (rw (named, small, room)) named'
                        (ltb→le _ _ small)
                ]
        ]
  ]

  -- What `add` returns has the new occurrence.
  pub add-Added :
      IsValid size q
      → IsSized size observed
      → {q' : CandidateQueue Resolver} → add q scope observed resolve ≡ ok q'
      → Added size q scope observed resolve q'
  add-Added h sized {q'} e = elim (candidate_add_lem h sized) [
    | inl (ran, _) ↦ absurd (ground arith)
    | inr (inl (ran, _, _)) ↦ absurd (ground arith)
    | inr (inr (inl (ran, _, _, _))) ↦ absurd (ground arith)
    | inr (inr (inr (inl (ran, _, _, _, _, _)))) ↦ absurd (ground arith)
    | inr (inr (inr (inr (q'', ran, n, s, r, taken, added)))) ↦
        let same : q'' ≡ q' = cc in rw same at added
  ]
