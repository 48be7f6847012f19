-- ===== src/Tests/Committing.antt =====
-- A generation that replaces another one under a reservation, and a state beside it.
use marimo_export.Prelude.{ℕ, String, Option, none, some, List, [], ◌∷◌, ◌≡◌, refl, ok, err, ◌⊎◌}
use marimo_export.Repository.Leases.{generation, state}
use marimo_export.Repository.Observations
use marimo_export.Repository.Retention
use marimo_export.Repository.Leases.Stale.{LeaseEvent, renewed, expired}
use marimo_export.Repository.Artifacts.{
  Tables, AdmissionLimits, Commit, CommitError, check_slot, upsert_pointer,
}
use marimo_export.Repository.Artifacts.Generations
use marimo_export.Repository.Artifacts.Generations.{
  Claim, GenerationCommit, place_generation, generation_key,
}
use marimo_export.Repository.Artifacts.PreparedStates
use marimo_export.Repository.Artifacts.PreparedStates.{StateCommit, state_key}
use marimo_export.Repository.Artifacts.Committed.{
  IsReady, IsStateReady, IsCommitted, generation_commit_lem, state_commit_lem,
}
use marimo_export.Repository.Artifacts.Admitted.{check_slot-ok}

abbrev slot : String → Option String → ℕ → Commit
slot serial replacing content = record {
  key = "i";
  producer_sha256 = "p";
  output_plan_sha256 = "o";
  subject_sha256 = "s";
  serial = serial;
  replacing = replacing;
  metadata = 1 ∷ 2 ∷ [];
  captured = 3;
  content_bytes = content;
  now_us = 20;
}

abbrev tables : Tables
tables = record {
  db = record {
    producers = record { producer_sha256 = "p"; observation_revision = 4; touched_at_us = 1 } ∷ [];
    observations = [];
    observation_events = [];
  };
  leases = record {
    artifacts = [];
    staging = [];
    reservations =
        record {
          identity_key = "i";
          owner = "me";
          fence = 7;
          producer_sha256 = "p";
          output_plan_sha256 = "o";
          spec_sha256 = "s";
          expires_at_us = 50;
        }
        ∷ [];
    preparation_fence = 7;
  };
  identities =
      record {
        key = "i";
        producer_sha256 = "p";
        output_plan_sha256 = "o";
        subject_sha256 = "s";
        current = some "1";
        touched_at_us = 1;
      }
      ∷ [];
  state_scopes = [];
  generations =
      record {
        key = "i";
        serial = "1";
        metadata = 1 ∷ [];
        metadata_bytes = 1;
        captured = 1;
        content_bytes = 60;
        created_at_us = 1;
        accessed_at_us = 1;
      }
      ∷ [];
  prepared_states =
      record {
        key = "a";
        serial = "1";
        metadata = [];
        metadata_bytes = 0;
        captured = 0;
        content_bytes = 5;
        created_at_us = 1;
        accessed_at_us = 1;
      }
      ∷ [];
  generation_states = [];
  retired = [];
}

abbrev limits : AdmissionLimits
limits = record {
  metadata_bytes = 100;
  prepared_state_bytes = 50;
  generation_bytes = 100;
  repository_bytes = 150;
}

abbrev claim : ℕ → Claim
claim fence = record { owner = "me"; identity_key = "i"; fence = fence; now_us = 20 }

abbrev generation_commit : ℕ → GenerationCommit
generation_commit fence = record {
  slot = slot "2" (some "1") 70;
  states = ("a", "1") ∷ [];
  owner = "me";
  expires_at_us = 90;
  claim = claim fence;
}

abbrev state_commit : ℕ → StateCommit
state_commit fence = record {
  slot = slot "3" none 40;
  owner = "me";
  expires_at_us = 90;
  claim = claim fence;
  reservation_spec_sha256 = "s";
}

commit_runs :
    Generations.commit limits tables (generation_commit 7)
    ≡ ok (place_generation tables (generation_commit 7))
unfolding Generations.commit Observations.stored_revision Observations.touch Retention.is_key
commit_runs = refl

commit-IsReady : IsReady limits tables (generation_commit 7)
unfolding Observations.stored_revision Observations.touch Retention.is_key
    Generations.require_identity Observations.observation_revision Generations.breaks_pins
    check_slot upsert_pointer
commit-IsReady = record {
  reserved = refl;
  revision = 4;
  observed = refl;
  captured_fits = refl;
  checked =
      check_slot-ok limits generation tables
        (upsert_pointer (slot "2" (some "1") 70) tables.identities) (slot "2" (some "1") 70) refl;
  pins_hold = refl;
}

generation_commit_lem_example :
    (t' : Tables) × (Generations.commit limits tables (generation_commit 7) ≡ ok t')
    × IsCommitted limits generation tables t'
        (slot "2" (some "1") 70)
        (generation_key (slot "2" (some "1") 70))
        "me"
        90
generation_commit_lem_example =
    generation_commit_lem limits tables (generation_commit 7) commit-IsReady

state_commit_lem_example :
    ((t' : Tables) × (PreparedStates.commit limits tables (state_commit 7) ≡ ok t')
      × IsStateReady limits tables (state_commit 7)
      × IsCommitted limits state tables t'
          (slot "3" none 40)
          (state_key (slot "3" none 40))
          "me"
          90)
    ⊎ ((e : CommitError) × (PreparedStates.commit limits tables (state_commit 7) ≡ err e)
        × (¬ IsStateReady limits tables (state_commit 7)))
state_commit_lem_example = state_commit_lem limits tables (state_commit 7)

abbrev events : List LeaseEvent
events = renewed "me" [] [] ("i" ∷ []) 99 21 ∷ expired 30 ∷ []
