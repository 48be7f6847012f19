-- ===== src/Tests/Observing.antt =====
-- The observation queues, the ledger and the repository at concrete inputs.
use marimo_export.Prelude.{
  ℕ, String, true, false, none, List, [], ◌∷◌, All, ◌≡◌, refl, arith, ◌+◌, ◌≤◌, err,
}
use marimo_export.Observations.Inputs.{ObservedInputs}
use marimo_export.Observations.Queue
use marimo_export.Observations.Queue.{ObservationQueue}
use marimo_export.Observations.Queue.Valid as QueueLaws
use marimo_export.Observations.Queue.Valid.Add as QueueAdd
use marimo_export.Observations.Queue.Valid.Pop as QueuePop
use marimo_export.Observations.Candidates
use marimo_export.Observations.Candidates.{CandidateQueue}
use marimo_export.Observations.Candidates.Valid as CandidateLaws
use marimo_export.Observations.Candidates.Valid.Add as CandidateAdd
use marimo_export.Observations.Candidates.Valid.Pop as CandidatePop
use marimo_export.Format.{is_sha256}
use marimo_export.Prelude.Latest.{latest_index}
use marimo_export.Observations.Ledger.{Ledger, init, is_idle, record_observed, record_deferred}
use marimo_export.Observations.Ledger.Writes
use marimo_export.Observations.Ledger.Writes.{Env, Work, persist, share}
use marimo_export.Observations.Ledger.Payment
use marimo_export.Observations.Ledger.Flow
use marimo_export.Observations.Ledger.Flow.{
  Event, recorded, deferred, worked, IsSizedEvent, run, credits, waiting, deferred_waiting, entries,
  finishes, entry, finish,
}
use marimo_export.Observations.Ledger.Conserved
use marimo_export.Repository.Observations
use marimo_export.Repository.Observations.{Db, Row, Limits}
use marimo_export.Repository.Observations.Pruned
use marimo_export.Repository.Observations.Revisions
use marimo_export.Repository.Journal
use marimo_export.Repository.Journal.{Journal, journal_repository}

abbrev producer : String
producer = "0123456789abcdef0123456789abcdef0123456789abcdef0123456789abcdef"

abbrev first : ObservedInputs
first = record { fingerprint = "f1"; values_bytes = 123 ∷ 125 ∷ [] }

abbrev second : ObservedInputs
second = record { fingerprint = "f2"; values_bytes = 123 ∷ 125 ∷ [] }

abbrev size : String → ℕ
size s = 2

abbrev held_queue : ObservationQueue
held_queue = record {
  pending = record { producer_sha256 = producer; observed = first; occurrences = 3 } ∷ [];
  pending_bytes = 2;
  revision_only = [];
  producers = producer ∷ [];
}

held_queue-IsValid : QueueLaws.IsValid size held_queue
unfolding Queue.has_revisions
held_queue-IsValid = record {
  sized = (refl, tt);
  counted = refl;
  short = omega arith;
  light = omega arith;
  few = omega arith;
  distinct = tt;
  distinct_producers = (refl, tt);
  exact = λ p. refl;
}

add_lem_example : QueueAdd.AddOutcome size held_queue producer second
add_lem_example = QueueAdd.add_lem size held_queue producer second held_queue-IsValid refl

pop_lem_example : QueuePop.Popped size held_queue
pop_lem_example = QueuePop.pop_lem size held_queue held_queue-IsValid

abbrev waiting_candidates : CandidateQueue ℕ
waiting_candidates = record {
  pending = record { scope = "s"; observed = first; occurrences = 2; resolve_producer = 7 } ∷ [];
  pending_bytes = 2;
  scopes = "s" ∷ [];
}

waiting_candidates-IsValid : CandidateLaws.IsValid size waiting_candidates
waiting_candidates-IsValid = record {
  sized = (refl, tt);
  counted = refl;
  short = omega arith;
  light = omega arith;
  few = omega arith;
  distinct_scopes = (refl, tt);
  exact = λ p. refl;
}

candidate_add_lem_example : CandidateAdd.AddOutcome size waiting_candidates "t" second 8
candidate_add_lem_example =
    CandidateAdd.candidate_add_lem size waiting_candidates "t" second 8 waiting_candidates-IsValid
      refl

candidate_pop_lem_example : CandidatePop.Popped size waiting_candidates
candidate_pop_lem_example =
    CandidatePop.candidate_pop_lem size waiting_candidates waiting_candidates-IsValid

abbrev limits : Limits
limits = record {
  observation_bytes = 100;
  observations_per_producer = 2;
  observation_relation_bytes = 10;
}

abbrev journal : Journal
journal = record {
  db = record { producers = []; observations = []; observation_events = [] };
  locks = true ∷ false ∷ [];
}

abbrev names : ObservedInputs → List ℕ
names o = 91 ∷ 93 ∷ []

abbrev env : Env
env = record { resolved = Writes.producer producer; opens = true; closes = true }

-- One vector twice, another one, a deferred one, and the worker until nothing is left.
abbrev events : List (Event ℕ)
events =
    recorded producer first
    ∷ recorded producer first
    ∷ deferred "s" second 7
    ∷ worked env
    ∷ recorded producer second
    ∷ worked env
    ∷ worked env
    ∷ worked env
    ∷ worked env
    ∷ worked env
    ∷ []

abbrev ended : Ledger ℕ Journal
ended = run (journal_repository limits 9 names) events (init journal)

program : Unit {0}
unfolding run credits Queue.add Queue.coalesce Queue.append Queue.enforce_limits Candidates.add
    Candidates.coalesce Candidates.append Queue.pop_from Candidates.pop_from
    Queue.remove_producer_if_empty persist Journal.record_write Journal.advance_revision
    record_observed record_deferred is_sha256 latest_index Queue.evict Queue.discard
    Observations.record_observation Observations.stored_revision
program = tt

events_end_idle : (ended.failure ≡ none) × (is_idle ended ≡ true)
unfolding program
events_end_idle = (refl, refl)

events_sized : All (IsSizedEvent size) events
events_sized = omega arith

run_conserves_example :
    ((q : String)
      → (journal_repository limits 9 names).revision q ended.store + waiting q ended
        ≡ (journal_repository limits 9 names).revision q journal
          + waiting {Resolver = ℕ} q (init journal)
          + credits (journal_repository limits 9 names) q events (init journal))
    × ((s : String)
        → deferred_waiting s ended
            + finishes (journal_repository limits 9 names) s events (init journal)
          ≡ deferred_waiting {Resolver = ℕ} s (init journal)
            + entries (journal_repository limits 9 names) s events (init journal))
run_conserves_example =
    Conserved.run_conserves (journal_repository limits 9 names) size events (init journal)
      events_sized (Conserved.init-IsSound size journal) events_end_idle.0

flush_is_complete_example :
    ((q : String)
      → (journal_repository limits 9 names).revision q ended.store
        ≡ (journal_repository limits 9 names).revision q journal
          + credits (journal_repository limits 9 names) q events (init journal))
    × ((s : String)
        → finishes (journal_repository limits 9 names) s events (init journal)
          ≡ entries (journal_repository limits 9 names) s events (init journal))
flush_is_complete_example =
    Conserved.flush_is_complete (journal_repository limits 9 names) size events journal events_sized
      events_end_idle.0 events_end_idle.1

-- One deferred occurrence of the scope was accepted, and the worker finished it.
one_deferred :
    (entries (journal_repository limits 9 names) "s" events (init journal) ≡ 1)
    × (finishes (journal_repository limits 9 names) "s" events (init journal) ≡ 1)
unfolding program entries finishes entry finish
one_deferred = (refl, refl)

run-IsSound_example : Flow.IsSound size ended
run-IsSound_example =
    Conserved.run-IsSound (journal_repository limits 9 names) size events (init journal)
      events_sized (Conserved.init-IsSound size journal)

-- The run wrote four occurrences of the producer.
four_revisions : (journal_repository limits 9 names).revision producer ended.store ≡ 4
unfolding program
four_revisions = refl

abbrev work : Work ℕ
work = Writes.write (Queue.advance (record { producer_sha256 = producer; occurrences = 5 }))

persist_pays_example :
    (journal_repository limits 9 names).revision producer
      (persist (journal_repository limits 9 names) env work journal).0
    ≡ (journal_repository limits 9 names).revision producer journal
      + Payment.settled
          (persist (journal_repository limits 9 names) env work journal).1
          (Payment.due env work producer)
persist_pays_example =
    Payment.persist_pays (journal_repository limits 9 names) producer env work journal

record_write_pays_example :
    Revisions.revision producer (Journal.record_write limits 9 names producer first 2 journal).0.db
    ≡ Revisions.revision producer journal.db
      + Writes.paid
          (Journal.record_write limits 9 names producer first 2 journal).1
          (share producer producer 2)
record_write_pays_example =
    Journal.record_write_pays limits 9 names producer first 2 producer journal

abbrev row : ℕ → List ℕ → Row
row id bytes = record {
  rowid = id;
  producer_sha256 = producer;
  fingerprint = "f";
  input_names = [];
  values_json = bytes;
  byte_count = 6;
  observed_order = id;
}

abbrev rows : List Row
rows = row 1 [] ∷ row 2 [] ∷ row 3 [] ∷ []

prune_bounds_example :
    (Pruned.of_producer producer
        (λ r. 1)
        (Observations.prune_observation_table producer limits rows)
      ≤ 2)
    × (Pruned.of_producer producer
          (λ r. r.byte_count)
          (Observations.prune_observation_table producer limits rows)
        ≤ 10)
prune_bounds_example = Pruned.prune_observation_table_bounds producer limits rows

-- A producer at revision 4 with an event of revision 3.
abbrev advanced_db : Db
advanced_db = record {
  producers =
      record { producer_sha256 = producer; observation_revision = 4; touched_at_us = 1 } ∷ [];
  observations = [];
  observation_events = row 3 [] ∷ [];
}

advanced_db-IsOrdered : Revisions.IsOrdered advanced_db
unfolding Observations.stored_revision
advanced_db-IsOrdered = (omega arith, tt)

record_observation-Advances_example :
    Revisions.RecordsInOrder advanced_db producer 2
      (Observations.record_observation advanced_db producer "f1" [] [] 2 9 limits)
record_observation-Advances_example =
    Revisions.record_observation-Advances advanced_db producer "f1" [] [] 2 9 limits
      advanced_db-IsOrdered (omega arith)

-- An order that is taken, and none at all.
taken_order :
    Observations.insert_observation producer "f1" [] [] 3 limits advanced_db
    ≡ err Observations.integrity
unfolding Observations.insert_observation
taken_order = refl

zero_order :
    Observations.record_observation journal.db producer "f1" [] [] 0 9 limits
    ≡ err Observations.integrity
unfolding Observations.record_observation Observations.stored_revision
zero_order = refl
