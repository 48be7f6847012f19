-- ===== src/Repository/Artifacts/PreparedStates.antt =====
-- _repository/sqlite/prepared_states.py: the commit of a state under a reservation of its producer
-- and plan, the lookup of current states, and the removal of one.
use marimo_export.Prelude.{
  ℕ, String, str_eq, Bool, ◌&&◌, ◌||◌, none, some, List, [], ◌∷◌, any, if◌then◌else◌, Result, ok,
  err, ◌>>◌,
}
use marimo_export.Repository.Observations.{touch_producer}
use marimo_export.Repository.Leases.{
  ArtifactKey, state, acquire_artifacts, delete_where, update_where,
}
use marimo_export.Repository.Leases.Fences.{Subject, require_reservation}
use marimo_export.Repository.Retention.{Key, is_key}
use marimo_export.Repository.Artifacts.{
  CommitError, integrity, Pointer, Body, Tables, AdmissionLimits, Commit, upsert_pointer,
  current_of, require_replacement, find_body, check_slot, insert_body, point_at, of_fence,
}
use marimo_export.Repository.Artifacts.Generations.{Claim, unpoint_all, is_gone, loses_pointer}

pub record StateCommit : Type 0 where
  pub slot : Commit
  pub owner : String
  pub expires_at_us : ℕ
  pub claim : Claim
  pub reservation_spec_sha256 : String

-- The reservation is for an export of this producer and plan.
abbrev pub reserved_subject : StateCommit → Subject
reserved_subject g = record {
  identity_key = g.claim.identity_key;
  producer_sha256 = g.slot.producer_sha256;
  output_plan_sha256 = g.slot.output_plan_sha256;
  spec_sha256 = g.reservation_spec_sha256;
}

unfoldable pub require_claim : Tables → StateCommit → Result CommitError (Unit {0})
unfolding require_reservation
require_claim t g =
    of_fence
      (require_reservation t.leases g.claim.owner g.claim.fence (reserved_subject g) g.claim.now_us)

unfoldable pub check_commit : Tables → StateCommit → Result CommitError (Unit {0})
unfolding require_claim current_of require_replacement
check_commit t g = do
  require_claim t g
  require_replacement (current_of g.slot.key t.state_scopes) g.slot.replacing g.slot.serial

abbrev pub state_key : Commit → ArtifactKey
state_key c = record { kind = state; artifact_key = c.key; serial = c.serial }

unfoldable pub place_state : Tables → StateCommit → Tables
unfolding upsert_pointer insert_body point_at
place_state t g =
    let c = g.slot in
    record t {
      db = touch_producer c.producer_sha256 c.now_us t.db;
      state_scopes = point_at c (upsert_pointer c t.state_scopes);
      prepared_states = insert_body c t.prepared_states;
      leases = acquire_artifacts t.leases g.owner (state_key c ∷ []) g.expires_at_us;
    }

unfoldable pub commit : AdmissionLimits → Tables → StateCommit → Result CommitError Tables
unfolding require_claim check_slot upsert_pointer place_state
commit limits t g = do
  require_claim t g
  check_slot limits state t (upsert_pointer g.slot t.state_scopes) g.slot
  ok (place_state t g)

-- The rows that the scopes of the fingerprints point to.
unfoldable pub current_bodies : String → String → List String → List Pointer → List Body → List Body
unfolding find_body
current_bodies producer plan fingerprints [] bodies = []
current_bodies producer plan fingerprints (p ∷ ps) bodies =
    let rest = current_bodies producer plan fingerprints ps bodies in
    if str_eq p.producer_sha256 producer
      && str_eq p.output_plan_sha256 plan
      && any (λ f. str_eq f p.subject_sha256) fingerprints
    then (elim p.current [
      | none ↦ rest
      | some serial ↦ elim (find_body p.key serial bodies) [ none ↦ rest | some b ↦ b ∷ rest ]
    ])
    else rest

abbrev pub is_among : List Body → Body → Bool
is_among found b = any (λ f. is_key (f.key, f.serial) (b.key, b.serial)) found

abbrev pub state_keys : List Body → List ArtifactKey
state_keys [] = []
state_keys (b ∷ bs) =
    record { kind = state; artifact_key = b.key; serial = b.serial } ∷ state_keys bs

-- The current states, leased and touched.
unfoldable pub current :
    Tables → String → String → List String → String → ℕ → ℕ → Tables × List Body
unfolding current_bodies update_where
current t producer plan fingerprints owner expires now =
    let found = current_bodies producer plan fingerprints t.state_scopes t.prepared_states in
    (
      record t {
        leases = acquire_artifacts t.leases owner (state_keys found) expires;
        prepared_states =
            update_where (is_among found) (λ b. record b { accessed_at_us = now })
              t.prepared_states;
      },
      found,
    )

-- A state that a generation pins may not be deleted, nor a pointer with such a state.
unfoldable pub remove : Tables → Key → Result CommitError Tables
unfolding unpoint_all delete_where
remove t k =
    let pointers = unpoint_all k t.state_scopes in
    let gone : Key → Bool = λ l. is_key l k || (str_eq l.0 k.0 && loses_pointer k.0 pointers) in
    if any (λ pin. gone pin.1) t.generation_states
    then err integrity
    else ok (record t {
      state_scopes = delete_where (is_gone k.0) pointers;
      prepared_states = delete_where (λ b. gone (b.key, b.serial)) t.prepared_states;
    })
