-- ===== src/Repository/Artifacts/Committed.antt =====
-- Both commits: what they need, and what they leave.
use marimo_export.Prelude.{
  ℕ, ◌+◌, ◌≤◌, String, true, false, Option, some, is_none, List, length, ◌≡◌, refl, arith, ltb,
  if◌then◌else◌, ok, err, Result-cases, Bool-cases, inl, inr, ◌⊎◌,
}
use marimo_export.Repository.Observations.{touch_producer, observation_revision}
use marimo_export.Repository.Leases.{ArtifactKind, ArtifactKey, generation, state, acquire_each}
use marimo_export.Repository.Artifacts.{
  CommitError, Pointer, Body, Tables, AdmissionLimits, Commit, upsert_pointer, current_of,
  find_body, is_conflict, replaced_body, content_of, credit_content, credit_metadata, bodies_of,
  category_limit, total_bytes, total_metadata, check_slot,
}
use marimo_export.Repository.Artifacts.Slots.{
  point_at-current, insert_body-content, insert_body-metadata, insert_body-found,
}
use marimo_export.Repository.Artifacts.Admitted.{
  IsChecked, check_slot-ok, check_slot_passes, is_leased, insert_lease-is_leased,
}
use marimo_export.Repository.Artifacts.Generations
use marimo_export.Repository.Artifacts.Generations.{
  Claim, GenerationCommit, require_identity, of_db, breaks_pins, place_generation, generation_key,
}
use marimo_export.Repository.Artifacts.PreparedStates
use marimo_export.Repository.Artifacts.PreparedStates.{
  StateCommit, require_claim, place_state, state_key,
}

abbrev pub pointers_of : ArtifactKind → Tables → List Pointer
pointers_of generation t = t.identities
pointers_of state t = t.state_scopes

-- The three budgets behind the commit, with the credit that the replaced row gave.
pub record IsFitting (limits : AdmissionLimits) (kind : ArtifactKind) (t' : Tables)
    (replaced : Option Body) : Type 0 where
  pub category :
      content_of (bodies_of kind t') ≤ category_limit kind limits + credit_content replaced
  pub repository : total_bytes t' ≤ limits.repository_bytes + credit_content replaced
  pub metadata_fits : total_metadata t' ≤ limits.metadata_bytes + credit_metadata replaced

-- The commit `c` of `owner`, done between the tables `t` and `t'`.
pub record IsCommitted (limits : AdmissionLimits) (kind : ArtifactKind) (t t' : Tables) (c : Commit)
    (a : ArtifactKey) (owner : String) (expires : ℕ) : Type 0 where
  pub points : current_of c.key (pointers_of kind t') ≡ some c.serial
  pub written :
      (b : Body) × (find_body c.key c.serial (bodies_of kind t') ≡ some b)
      × (is_conflict c (some b) ≡ false)
  pub leased : is_leased owner a expires t'.leases.artifacts ≡ true
  pub fits :
      ((total_bytes t' ≡ total_bytes t) × (total_metadata t' ≡ total_metadata t))
      ⊎ IsFitting limits kind t' (replaced_body c c.replacing (bodies_of kind t))

-- `n`, where the commit's row is new.
abbrev added : Tables → ArtifactKind → Commit → ℕ → ℕ
added t kind c n = if is_none (find_body c.key c.serial (bodies_of kind t)) then n else 0

slot_fits :
    (limits : AdmissionLimits) (kind : ArtifactKind) (t t' : Tables) (pointers : List Pointer)
    (c : Commit)
    → IsChecked limits kind t pointers c
    → content_of (bodies_of kind t')
      ≡ content_of (bodies_of kind t) + added t kind c c.content_bytes
    → total_bytes t' ≡ total_bytes t + added t kind c c.content_bytes
    → total_metadata t' ≡ total_metadata t + added t kind c (length c.metadata)
    → ((total_bytes t' ≡ total_bytes t) × (total_metadata t' ≡ total_metadata t))
      ⊎ IsFitting limits kind t' (replaced_body c c.replacing (bodies_of kind t))
slot_fits limits kind t t' pointers c h e₁ e₂ e₃ =
    elim (Bool-cases (is_none (find_body c.key c.serial (bodies_of kind t)))) [
      | inr there ↦ inl (ground (arith, there, e₂), ground (arith, there, e₃))
      | inl new ↦ elim h.admitted [
        | inl exists ↦ absurd (ground (arith, new, exists))
        | inr fits ↦ inr (record {
          category = ground (arith, new, e₁, fits.category);
          repository = ground (arith, new, e₂, fits.repository);
          metadata_fits = ground (arith, new, e₃, fits.metadata_fits);
        })
      ]
    ]

-- What a commit of a generation needs.
pub record IsReady (limits : AdmissionLimits) (t : Tables) (g : GenerationCommit) : Type 0 where
  pub reserved : require_identity t g.slot g.claim ≡ ok tt
  pub revision : ℕ
  pub observed :
      observation_revision
        (touch_producer g.slot.producer_sha256 g.slot.now_us t.db)
        g.slot.producer_sha256
      ≡ ok revision
  pub captured_fits : ltb revision g.slot.captured ≡ false
  pub checked : IsChecked limits generation t (upsert_pointer g.slot t.identities) g.slot
  pub pins_hold : breaks_pins t.prepared_states g.states ≡ false

placed_generation :
    (limits : AdmissionLimits) (t : Tables) (g : GenerationCommit)
    → IsChecked limits generation t (upsert_pointer g.slot t.identities) g.slot
    → IsCommitted limits generation t
        (place_generation t g)
        g.slot
        (generation_key g.slot)
        g.owner
        g.expires_at_us
unfolding place_generation acquire_each
placed_generation limits t g h =
    let c = g.slot in
    let content = insert_body-content c t.generations in
    let metadata = insert_body-metadata c t.generations in
    record {
      points = point_at-current c t.identities;
      written = insert_body-found c t.generations h.agrees;
      leased = insert_lease-is_leased g.owner (generation_key c) g.expires_at_us t.leases.artifacts;
      fits =
          slot_fits limits generation t (place_generation t g) _ c h content
            (omega (arith, content)) (omega (arith, metadata));
    }

-- A commit of a generation that is ready ends: its identity points to it, its row has the
-- metadata and the content, its owner holds a lease on it to the given time, and the three
-- budgets hold, but for the credit of the row that it replaces, unless its row was there
-- before.
pub generation_commit_lem :
    (limits : AdmissionLimits) (t : Tables) (g : GenerationCommit)
    → IsReady limits t g
    → (t' : Tables) × (Generations.commit limits t g ≡ ok t')
      × IsCommitted limits generation t t' g.slot (generation_key g.slot) g.owner g.expires_at_us
unfolding Generations.commit
generation_commit_lem limits t g h = (
  place_generation t g,
  rw (h.reserved, h.observed)
      (rw h.captured_fits (
        rw
          (
            check_slot_passes limits generation t (upsert_pointer g.slot t.identities) g.slot
                h.checked,
            h.pins_hold,
          )
          refl)),
  placed_generation limits t g h.checked,
)

-- What a commit of a state needs.
pub record IsStateReady (limits : AdmissionLimits) (t : Tables) (g : StateCommit) : Type 0 where
  pub reserved : require_claim t g ≡ ok tt
  pub checked : IsChecked limits state t (upsert_pointer g.slot t.state_scopes) g.slot

placed_state :
    (limits : AdmissionLimits) (t : Tables) (g : StateCommit)
    → IsChecked limits state t (upsert_pointer g.slot t.state_scopes) g.slot
    → IsCommitted limits state t (place_state t g) g.slot (state_key g.slot) g.owner g.expires_at_us
unfolding place_state acquire_each
placed_state limits t g h =
    let c = g.slot in
    let content = insert_body-content c t.prepared_states in
    let metadata = insert_body-metadata c t.prepared_states in
    record {
      points = point_at-current c t.state_scopes;
      written = insert_body-found c t.prepared_states h.agrees;
      leased = insert_lease-is_leased g.owner (state_key c) g.expires_at_us t.leases.artifacts;
      fits =
          slot_fits limits state t (place_state t g) _ c h content (omega (arith, content))
            (omega (arith, metadata));
    }

-- A commit of a state ends exactly when its reservation holds and its slot passes its checks,
-- and then its scope points to it, its row has the metadata and the content, its owner holds a
-- lease on it to the given time, and the three budgets hold, but for the credit of the row
-- that it replaces, unless its row was there before.
pub state_commit_lem :
    (limits : AdmissionLimits) (t : Tables) (g : StateCommit)
    → ((t' : Tables) × (PreparedStates.commit limits t g ≡ ok t')
        × IsStateReady limits t g
        × IsCommitted limits state t t' g.slot (state_key g.slot) g.owner g.expires_at_us)
      ⊎ ((e : CommitError) × (PreparedStates.commit limits t g ≡ err e)
          × (¬ IsStateReady limits t g))
unfolding PreparedStates.commit
state_commit_lem limits t g =
    let pointers = upsert_pointer g.slot t.state_scopes in
    elim (Result-cases (require_claim t g)) [
      | inl (e, refused) ↦
          inr (e, rw refused refl, λ r. absurd (ground (arith, refused, r.reserved)))
      | inr (tt, reserved) ↦ elim (Result-cases (check_slot limits state t pointers g.slot)) [
        | inl (e, refused) ↦ inr (
          e,
          rw (reserved, refused) refl,
          λ r.
              absurd (
                ground
                  (arith, refused, check_slot_passes limits state t pointers g.slot r.checked)),
        )
        | inr (tt, passed) ↦
            let checked = check_slot-ok limits state t pointers g.slot passed in
            inl (
              place_state t g,
              rw (reserved, passed) refl,
              record { reserved = reserved; checked = checked },
              placed_state limits t g checked,
            )
      ]
    ]
