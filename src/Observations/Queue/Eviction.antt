-- ===== src/Observations/Queue/Eviction.antt =====
-- The loop of `_enforce_limits`.
use marimo_export.Prelude.{
  ℕ, ◌+◌, ◌≤◌, String, Bool, false, ◌||◌, List, [], ◌∷◌, ◌++◌, ◌≡◌, refl, ap, ◌∙◌, ◌-◌, arith,
  length, any, sum_by, if◌then◌else◌, ok, Bool-cases, inl, inr, str_eq_iff,
}
use marimo_export.Observations.Inputs.{byte_count, max_pending_observations, max_pending_bytes}
use marimo_export.Observations.Queue.{
  PendingObservation, of_producer, revisions, put_revisions, has_revisions, over_limits, evict,
}
use marimo_export.Observations.Queue.Revisions.{
  DistinctKeys, revisions-put_revisions, has_revisions-put_revisions, put_revisions-DistinctKeys,
}

abbrev pub total_bytes : List PendingObservation → ℕ
total_bytes = sum_by (λ p. byte_count p.observed)

abbrev pub count_of : String → PendingObservation → ℕ
count_of producer p = if of_producer producer p then p.occurrences else 0

-- The occurrences of a producer that the queue holds, as entries and as revision advances.
abbrev pub held : String → List PendingObservation → List (String × ℕ) → ℕ
held producer ps revs = sum_by (count_of producer) ps + revisions producer revs

abbrev pub is_held : String → List PendingObservation → List (String × ℕ) → Bool
is_held producer ps revs = has_revisions producer revs || any (of_producer producer) ps

pub record Evicted (ps : List PendingObservation) (revs : List (String × ℕ)) : Type 0 where
  pub gone : List PendingObservation
  pub kept : List PendingObservation
  pub revs' : List (String × ℕ)
  pub splits : ps ≡ gone ++ kept
  pub short : length kept ≤ max_pending_observations
  pub light : total_bytes kept ≤ max_pending_bytes
  pub distinct : DistinctKeys revs → DistinctKeys revs'
  pub same_count : (p : String) → held p kept revs' ≡ held p ps revs
  pub same_producers : (p : String) → is_held p kept revs' ≡ is_held p ps revs

sub-total :
    (x : PendingObservation) (rest : List PendingObservation)
    → total_bytes (x ∷ rest) - byte_count x.observed ≡ total_bytes rest
sub-total x rest = omega arith

module _ (x : PendingObservation) (rest : List PendingObservation) (revs : List (String × ℕ)) where
  -- The advances once the entry is dropped.
  abbrev moved : List (String × ℕ)
  moved = put_revisions x.producer_sha256 (revisions x.producer_sha256 revs + x.occurrences) revs

  held-moved : (p : String) → held p rest moved ≡ held p (x ∷ rest) revs
  held-moved p = ground (
    arith,
    str_eq_iff x.producer_sha256 p,
    revisions-put_revisions p x.producer_sha256 (revisions x.producer_sha256 revs + x.occurrences)
        revs,
  )

  is_held-moved : (p : String) → is_held p rest moved ≡ is_held p (x ∷ rest) revs
  is_held-moved p = ground (
    arith,
    has_revisions-put_revisions p x.producer_sha256
        (revisions x.producer_sha256 revs + x.occurrences) revs,
  )

  Evicted-cons : Evicted rest moved → Evicted (x ∷ rest) revs
  Evicted-cons e = record {
    gone = x ∷ e.gone;
    kept = e.kept;
    revs' = e.revs';
    splits = ap (◌∷◌ x) e.splits;
    short = e.short;
    light = e.light;
    distinct = λ d. e.distinct (put_revisions-DistinctKeys _ _ revs d);
    same_count = λ p. e.same_count p ∙ held-moved p;
    same_producers = λ p. e.same_producers p ∙ is_held-moved p;
  }

Evicted-all :
    (ps : List PendingObservation) (revs : List (String × ℕ))
    → over_limits (length ps) (total_bytes ps) ≡ false
    → Evicted ps revs
Evicted-all ps revs fits = record {
  gone = [];
  kept = ps;
  revs' = revs;
  splits = refl;
  short = ground arith;
  light = ground arith;
  distinct = λ d. d;
  same_count = λ p. refl;
  same_producers = λ p. refl;
}

pub evict_lem :
    (ps : List PendingObservation) (revs : List (String × ℕ))
    → (e : Evicted ps revs) × (evict ps (total_bytes ps) revs
        ≡ ok (e.kept, total_bytes e.kept, e.revs'))
unfolding evict Evicted-all Evicted-cons
evict_lem [] revs = (Evicted-all [] revs refl, refl)
evict_lem (x ∷ rest) revs =
    let (e, out) = evict_lem rest (moved x rest revs) in
    elim (Bool-cases (over_limits (length (x ∷ rest)) (total_bytes (x ∷ rest)))) [
      | inl over ↦ (Evicted-cons x rest revs e, rw over (rw (sub-total x rest) out))
      | inr fits ↦ (Evicted-all (x ∷ rest) revs fits, rw fits)
    ]

-- The newest entry stays: on its own it is within the limits.
pub evict-last :
    (pre : List PendingObservation) (y : PendingObservation) (revs : List (String × ℕ))
    → byte_count y.observed ≤ max_pending_bytes
    → (pre' : List PendingObservation) × (out : ℕ × List (String × ℕ)) × (evict
          (pre ++ y ∷ [])
          (total_bytes (pre ++ y ∷ []))
          revs
        ≡ ok (pre' ++ y ∷ [], out.0, out.1))
unfolding evict
evict-last [] y revs h = ([], (total_bytes (y ∷ []), revs), ground arith)
evict-last (x ∷ pre) y revs h =
    let (pre', out, e) = evict-last pre y (moved x (pre ++ y ∷ []) revs) h in
    elim (Bool-cases (over_limits (length (x ∷ pre ++ y ∷ [])) (total_bytes (x ∷ pre ++ y ∷ [])))) [
      | inl over ↦ (pre', out, rw over (rw (sub-total x (pre ++ y ∷ [])) e))
      | inr fits ↦ (x ∷ pre, (total_bytes (x ∷ pre ++ y ∷ []), revs), rw fits)
    ]
