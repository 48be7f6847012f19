-- ===== src/Observations/Queue/Valid/Add.antt =====
-- `add` of _observations/queue.py on every branch.
use marimo_export.Prelude.{
  ℕ, ◌≤◌, String, str_eq_iff, true, false, ◌∷◌, ◌≡◌, arith, length, ok, err, Bool-cases, inl, inr,
  ◌⊎◌, ◌<◌, ltb, leb, ltb→lt, ltb→le, leb→le, leb→lt,
}
use marimo_export.Observations.Inputs.{
  ObservedInputs, byte_count, IsSized, max_pending_producers, max_observation_bytes, too_large,
  too_many_producers,
}
use marimo_export.Observations.Queue.{ObservationQueue, has_producer, add}
use marimo_export.Observations.Queue.Valid.{IsValid, IsEntered, Added}
use marimo_export.Observations.Queue.Valid.Coalesce.{coalesce_lem}

module _ {size : String → ℕ} {q : ObservationQueue} (h : IsValid size q) (producer : String) where
  known-IsEntered : has_producer producer q.producers ≡ true → IsEntered size producer q
  known-IsEntered known = record {
    sized = h.sized;
    counted = h.counted;
    short = h.short;
    light = h.light;
    few = h.few;
    distinct = h.distinct;
    distinct_producers = h.distinct_producers;
    exact = λ p. ground (arith, h.exact p, h.exact producer, str_eq_iff producer p);
  }

  new-IsEntered :
      has_producer producer q.producers ≡ false
      → length q.producers < max_pending_producers
      → IsEntered size producer (record q { producers = producer ∷ q.producers })
  new-IsEntered new room = record {
    sized = h.sized;
    counted = h.counted;
    short = h.short;
    light = h.light;
    few = room;
    distinct = h.distinct;
    distinct_producers = (new, h.distinct_producers);
    exact = λ p. ground (arith, h.exact p);
  }

module _ (size : String → ℕ) (q : ObservationQueue) (producer : String)
    (observed : ObservedInputs) where
  -- The outcomes of `add`, each with the condition under which it comes.
  abbrev pub AddOutcome : Type 0
  AddOutcome =
      (add q producer observed ≡ err too_large) × (max_observation_bytes < byte_count observed)
      ⊎ (add q producer observed ≡ err too_many_producers)
        × (byte_count observed ≤ max_observation_bytes)
        × (has_producer producer q.producers ≡ false)
        × (max_pending_producers ≤ length q.producers)
      ⊎ (q' : ObservationQueue) × (add q producer observed ≡ ok q')
        × (byte_count observed ≤ max_observation_bytes)
        × ((has_producer producer q.producers ≡ true)
            ⊎ (length q.producers < max_pending_producers))
        × Added size q producer observed q'

  -- Where a vector's fingerprint fixes its size: from a valid queue, add refuses an oversized
  -- vector or a new producer when 32 are held, and otherwise gives a valid queue with one
  -- occurrence more of the producer, every other count unchanged and the vector as the
  -- producer's latest entry; it never meets an IndexError.
  pub add_lem : IsValid size q → IsSized size observed → AddOutcome
  unfolding add
  add_lem h sized = elim (Bool-cases (ltb max_observation_bytes (byte_count observed))) [
    | inl large ↦ inl (rw large, ltb→lt _ _ large)
    | inr small ↦
        let small' : byte_count observed ≤ max_observation_bytes = ltb→le _ _ small in
        elim (Bool-cases (has_producer producer q.producers)) [
          | inl known ↦
              let (q', ran, added) =
                coalesce_lem size q producer observed (known-IsEntered h producer known) sized
                  small' in
              inr (inr (q', rw small (rw known ran), small', inl known, added))
          | inr new ↦ elim (Bool-cases (leb max_pending_producers (length q.producers))) [
            | inl many ↦ inr (inl (rw small (rw new (rw many)), small', new, leb→le _ _ many))
            | inr room ↦
                let (q', ran, added) =
                  coalesce_lem size (record q { producers = producer ∷ q.producers }) producer
                    observed (new-IsEntered h producer new (leb→lt _ _ room)) sized small' in
                inr (
                  inr (
                    q',
                    rw small (rw new (rw room ran)),
                    small',
                    inr (leb→lt _ _ room),
                    record {
                      valid = added.valid;
                      counts = added.counts;
                      at = added.at;
                      latest = added.latest;
                      newest = added.newest;
                    },
                  ))
          ]
        ]
  ]
