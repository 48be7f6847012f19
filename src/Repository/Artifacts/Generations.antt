-- ===== src/Repository/Artifacts/Generations.antt =====
-- _repository/sqlite/generations.py: the commit of a generation under its reservation, the lookup of
-- the current one, and its removal. A raise rolls the transaction back.
use marimo_export.Prelude.{
  ℕ, String, str_eq, Bool, false, ◌&&◌, ◌||◌, not, Option, none, some, is_none, List, [], ◌∷◌, ◌++◌,
  any, ltb, if◌then◌else◌, Result, ok, err, ◌>>=◌, ◌>>◌, raise_if,
}
use marimo_export.Repository.Observations.{DbError, touch_producer, observation_revision}
use marimo_export.Repository.Leases.{
  ArtifactKey, generation, acquire_artifacts, delete_where, update_where,
}
use marimo_export.Repository.Leases.Fences.{Subject, require_reservation}
use marimo_export.Repository.Retention.{Key, is_key}
use marimo_export.Repository.Artifacts.{
  CommitError, fenced, bad_value, corrupt, integrity, Pointer, Body, Tables, AdmissionLimits,
  Commit, upsert_pointer, current_of, require_replacement, find_body, check_slot, insert_body,
  point_at, of_fence,
}

-- The reservation that a commit names, and the time.
pub record Claim : Type 0 where
  pub owner : String
  pub identity_key : String
  pub fence : ℕ
  pub now_us : ℕ

pub record GenerationCommit : Type 0 where
  pub slot : Commit
  pub states : List Key
  pub owner : String
  pub expires_at_us : ℕ
  pub claim : Claim

abbrev pub subject_of : Commit → Subject
subject_of c = record {
  identity_key = c.key;
  producer_sha256 = c.producer_sha256;
  output_plan_sha256 = c.output_plan_sha256;
  spec_sha256 = c.subject_sha256;
}

-- The reservation is for this identity, and holds.
unfoldable pub require_identity : Tables → Commit → Claim → Result CommitError (Unit {0})
unfolding require_reservation
require_identity t c claim = do
  raise_if (not (str_eq claim.identity_key c.key)) fenced
  of_fence (require_reservation t.leases claim.owner claim.fence (subject_of c) claim.now_us)

unfoldable pub check_commit : Tables → Commit → Claim → Result CommitError (Unit {0})
unfolding require_identity current_of require_replacement
check_commit t c claim = do
  require_identity t c claim
  require_replacement (current_of c.key t.identities) c.replacing c.serial

abbrev pub of_db : {A : Type 0} → Result DbError A → Result CommitError A
of_db (ok a) = ok a
of_db (err e) = err corrupt

abbrev pub has_body : List Body → Key → Bool
has_body bs k = not (is_none (find_body k.0 k.1 bs))

-- The rows of `generation_states` break its keys: a state that is no row, or twice one state.
unfoldable pub breaks_pins : List Body → List Key → Bool
unfolding find_body
breaks_pins bs [] = false
breaks_pins bs (k ∷ ks) = not (has_body bs k) || any (λ l. str_eq l.0 k.0) ks || breaks_pins bs ks

unfoldable pub pin_each : Key → List Key → List (Key × Key)
pin_each g [] = []
pin_each g (s ∷ ss) = (g, s) ∷ pin_each g ss

abbrev pub generation_key : Commit → ArtifactKey
generation_key c = record { kind = generation; artifact_key = c.key; serial = c.serial }

-- The tables behind the checks.
unfoldable pub place_generation : Tables → GenerationCommit → Tables
unfolding upsert_pointer insert_body point_at pin_each delete_where
place_generation t g =
    let c = g.slot in
    record t {
      db = touch_producer c.producer_sha256 c.now_us t.db;
      identities = point_at c (upsert_pointer c t.identities);
      generations = insert_body c t.generations;
      generation_states =
          delete_where (λ pin. is_key pin.0 (c.key, c.serial)) t.generation_states
          ++ pin_each (c.key, c.serial) g.states;
      leases = acquire_artifacts t.leases g.owner (generation_key c ∷ []) g.expires_at_us;
    }

unfoldable pub commit : AdmissionLimits → Tables → GenerationCommit → Result CommitError Tables
unfolding require_identity observation_revision check_slot upsert_pointer breaks_pins
    place_generation
commit limits t g =
    require_identity t g.slot g.claim
    >> of_db (
        observation_revision (touch_producer g.slot.producer_sha256 g.slot.now_us t.db)
          g.slot.producer_sha256)
    >>= λ revision.
        raise_if (ltb revision g.slot.captured) bad_value
        >> check_slot limits generation t (upsert_pointer g.slot t.identities) g.slot
        >> raise_if (breaks_pins t.prepared_states g.states) integrity
        >> ok (place_generation t g)

-- The current generation, touched and leased; none leaves the tables as they were.
unfoldable pub current : Tables → Subject → String → ℕ → ℕ → Tables × Option Body
unfolding current_of find_body update_where
current t identity owner expires now = elim (current_of identity.identity_key t.identities) [
  | none ↦ (t, none)
  | some serial ↦ elim (find_body identity.identity_key serial t.generations) [
    | none ↦ (t, none)
    | some b ↦ (
      record t {
        generations =
            update_where (λ r. is_key (r.key, r.serial) (b.key, b.serial))
              (λ r. record r { accessed_at_us = now }) t.generations;
        identities =
            update_where (λ p. str_eq p.key b.key) (λ p. record p { touched_at_us = now })
              t.identities;
        leases =
            acquire_artifacts t.leases owner
              (record { kind = generation; artifact_key = b.key; serial = b.serial } ∷ []) expires;
      },
      some b,
    )
  ]
]

abbrev pub unpoint : Key → Pointer → Pointer
unpoint k p =
    if str_eq p.key k.0 && (elim p.current [ none ↦ false | some s ↦ str_eq s k.1 ])
    then record p { current = none }
    else p

unfoldable pub unpoint_all : Key → List Pointer → List Pointer
unpoint_all k [] = []
unpoint_all k (p ∷ ps) = unpoint k p ∷ unpoint_all k ps

-- The pointers of the key that point nowhere are deleted, and with one go the rows that refer to it.
abbrev pub is_gone : String → Pointer → Bool
is_gone key p = str_eq p.key key && is_none p.current

abbrev pub loses_pointer : String → List Pointer → Bool
loses_pointer key ps = any (is_gone key) ps

unfoldable pub remove : Tables → Key → Tables
unfolding unpoint_all delete_where
remove t k =
    let pointers = unpoint_all k t.identities in
    let gone : Key → Bool = λ l. is_key l k || (str_eq l.0 k.0 && loses_pointer k.0 pointers) in
    record t {
      identities = delete_where (is_gone k.0) pointers;
      generations = delete_where (λ b. gone (b.key, b.serial)) t.generations;
      generation_states = delete_where (λ pin. gone pin.0) t.generation_states;
    }

abbrev pub pinned_states : List (Key × Key) → List Key
pinned_states [] = []
pinned_states (pin ∷ pins) = pin.1 ∷ pinned_states pins

abbrev pub memberships : Tables → List Key
memberships t = pinned_states t.generation_states
