-- ===== src/Repository/Retention/Selected.antt =====
-- `_retained` and `retention_candidates` as a whole.
use marimo_export.Prelude.{
  String, true, false, Option, List, [], ◌∷◌, all, ◌≡◌, refl, arith, ok, inl,
}
use marimo_export.Repository.Retention.{
  Key, ArtifactRow, key_of, Retained, keep_generation, pinned, Catalog, Candidate, RetentionLimits,
  join_pins, fresh,
}
use marimo_export.Repository.Retention.Selection.{
  make_room, keep_leased, leased_identities, preparing_identities, protect, fill, retained,
  identity_keys, keep_identities, keep_generations, keep_states,
}
use marimo_export.Repository.Retention.Phases.{
  is_current, Yields, >>=-Yields, join_pins-Yields, force_current-Yields, keep_leased-P,
  keep_identities-Yields, keep_generations-P, keep_states-P,
}
use marimo_export.Repository.Retention.Steps.{IsSettled, keep-IsSettled, keep_generation-IsSettled}
use marimo_export.Repository.Retention.Pins.{
  IsGrown, IsGrown-self, keep-IsGrown, keep_generation-IsGrown,
}
use marimo_export.Repository.Retention.Leased.{
  is_protected, are_protected, keep_leased-is_protected,
}
use marimo_export.Repository.Retention.Sound.{
  is_linked, reserved, IsKept, step_generation, step_state, make_room-IsKept,
}

module _ (limits : RetentionLimits) (candidate : Option Candidate) (c : Catalog) where
  abbrev pub budgets : Retained
  budgets = reserved candidate c (fresh limits)

  -- What holds of the rows kept by force, and of the rows kept in the end.
  pub record IsSafe (pins : List (Key × ArtifactRow)) (r : Retained) : Type 0 where
    pub kept : IsKept pins budgets r
    pub leases_kept : all (is_protected c r) c.leases ≡ true

  fresh-IsKept : (pins : List (Key × ArtifactRow)) → IsKept pins (fresh limits) (fresh limits)
  fresh-IsKept pins = record {
    accounted = record {
      metadata_credit = refl;
      state_credit = refl;
      generation_credit = refl;
      metadata_debit = refl;
      state_debit = refl;
      generation_debit = refl;
    };
    pins_kept = refl;
  }

  -- `leased` is the state behind the loop over the leases.
  record IsForced (pins : List (Key × ArtifactRow)) (leased r : Retained) : Type 0 where
    kept : IsKept pins budgets r
    grown : IsGrown leased r

  protect-IsSafe :
      (pins : List (Key × ArtifactRow))
      → all (is_current c.generations) c.identities ≡ true
      → Yields (protect pins limits candidate c) (λ x. IsSafe pins x.1)
  unfolding protect
  protect-IsSafe pins linked =
      let made = make_room pins candidate c (fresh limits) in
      let leased = keep_leased pins c c.leases made in
      let made_kept = make_room-IsKept pins candidate c (fresh limits) (fresh-IsKept pins) in
      let leased_kept : IsKept pins budgets leased =
        keep_leased-P pins (IsKept pins budgets) (step_generation pins budgets true)
          (step_state pins budgets true) c c.leases made made_kept in
      let kept = preparing_identities c.preparing c.identities (leased_identities c.leases) in
      let (r, ran, forced) =
        force_current-Yields pins (IsForced pins leased)
          (λ row q h. record {
            kept = step_generation pins budgets true row q h.kept;
            grown = keep_generation-IsGrown leased row (pinned pins (key_of row)) true q h.grown;
          })
          kept c.generations c.identities leased linked
          (record { kept = leased_kept; grown = IsGrown-self leased }) in
      (
        (kept, r),
        rw ran refl,
        record {
          kept = forced.kept;
          leases_kept =
              are_protected c leased r c.leases forced.grown
                (keep_leased-is_protected pins c c.leases made);
        },
      )

  -- Behind the protected rows.
  record IsFilled (pins : List (Key × ArtifactRow)) (p r : Retained) : Type 0 where
    kept : IsKept pins budgets r
    grown : IsGrown p r
    settled : IsSettled p r

  fill-IsFilled :
      (pins : List (Key × ArtifactRow)) (kept : List String) (p : Retained)
      → all (is_current c.generations) c.identities ≡ true
      → IsKept pins budgets p
      → Yields (fill pins limits c kept p) (IsFilled pins p)
  unfolding fill
  fill-IsFilled pins kept p linked h =
      let more_generation : (row : ArtifactRow) (q : Retained)
          → IsFilled pins p q
          → IsFilled pins p (keep_generation row (pinned pins (key_of row)) false q).1 =
        λ row q g. record {
          kept = step_generation pins budgets false row q g.kept;
          grown = keep_generation-IsGrown p row (pinned pins (key_of row)) false q g.grown;
          settled = keep_generation-IsSettled p row (pinned pins (key_of row)) q g.settled;
        } in
      let start : IsFilled pins p p = record {
        kept = h;
        grown = IsGrown-self p;
        settled = inl refl;
      } in
      >>=-Yields (keep_identities pins limits.retained_identities c.generations c.identities kept p)
        (λ x. ok (
          keep_states limits.retained_prepared_states c.states
            (keep_generations pins limits x.0 (identity_keys x.1.generations) c.generations x.1)))
        (keep_identities-Yields pins (IsFilled pins p) more_generation limits.retained_identities
          c.generations c.identities kept p linked start)
        (λ x filled. (
          keep_states limits.retained_prepared_states c.states
              (keep_generations pins limits x.0 (identity_keys x.1.generations) c.generations x.1),
          refl,
          keep_states-P (IsFilled pins p)
              (λ row q g. record {
                kept = step_state pins budgets false row q g.kept;
                grown = keep-IsGrown p [] (row ∷ []) false q g.grown;
                settled = keep-IsSettled p [] (row ∷ []) q g.settled;
              })
              limits.retained_prepared_states c.states _
              (keep_generations-P pins (IsFilled pins p) more_generation limits x.0 c.generations
                (identity_keys x.1.generations) x.1 filled),
        ))

  -- The outcome of a retention: the rows that are protected, and those that are retained.
  pub record Selected : Type 0 where
    pub pins : List (Key × ArtifactRow)
    pub identities : List String
    pub protected : Retained
    pub result : Retained
    pub joins : join_pins c.pins c.states ≡ ok pins
    pub protects : protect pins limits candidate c ≡ ok (identities, protected)
    pub returns : retained limits candidate c ≡ ok result
    pub protected_safe : IsSafe pins protected
    pub result_safe : IsSafe pins result
    pub settled : IsSettled protected result

  -- Over a catalog without dangling references retention returns; its budgets are charged with
  -- exactly the bytes of what it keeps and with the candidate; every state that a kept
  -- generation pins and every leased row is kept; and it overdraws a budget only where what it
  -- must keep does so alone, and then it keeps nothing more.
  pub retained_lem : is_linked c ≡ true → Selected
  unfolding retained
  retained_lem linked =
      let (pins, joined) = join_pins-Yields c.pins c.states (ground arith) in
      let ((identities, p), ran, safe) = protect-IsSafe pins (ground arith) in
      let (r, filled, h) = fill-IsFilled pins identities p (ground arith) safe.kept in
      record {
        pins = pins;
        identities = identities;
        protected = p;
        result = r;
        joins = joined;
        protects = ran;
        returns = rw joined (rw ran filled);
        protected_safe = safe;
        result_safe = record {
          kept = h.kept;
          leases_kept = are_protected c p r c.leases h.grown safe.leases_kept;
        };
        settled = h.settled;
      }
