-- ===== src/Observations/Ledger/Flow.antt =====
-- Whole runs of a ledger: calls of its clients and steps of its worker in any order, and what they
-- make of the revisions and of the deferred calls. There are two sets of books: by producer, for
-- what is written, and by scope, for what `record_deferred` accepts.
use marimo_export.Prelude.{
  ℕ, ◌+◌, String, str_eq, if◌then◌else◌, Option, none, some, List, [], ◌∷◌, ◌≡◌, Result, ok, err,
}
use marimo_export.Observations.Inputs.{ObservedInputs, IsSized}
use marimo_export.Observations.Queue.Valid.{occurrences_of}
use marimo_export.Observations.Queue.Valid.Pop.{carries}
use marimo_export.Observations.Queue.Valid as QueueLaws
use marimo_export.Observations.Candidates.Valid as CandidateLaws
use marimo_export.Observations.Ledger.Writes.{Repository, Env, Work, write, candidate, share}
use marimo_export.Observations.Ledger.Payment.{due}
use marimo_export.Observations.Ledger.{
  Ledger, record_observed, record_deferred, close, work, work_from,
}

pub data Event (Resolver : Type 0) : Type 0 where
  recorded : String → ObservedInputs → Event Resolver
  deferred : String → ObservedInputs → Resolver → Event Resolver
  closing : Event Resolver
  worked : Env → Event Resolver

-- The vectors that an event brings are sized.
abbrev pub IsSizedEvent : {Resolver : Type 0} → (String → ℕ) → Event Resolver → Type 0
IsSizedEvent size (recorded p o) = IsSized size o
IsSizedEvent size (deferred s o r) = IsSized size o
IsSizedEvent size closing = Unit
IsSizedEvent size (worked env) = Unit

-- The ledger after a call: unchanged if the call raises.
abbrev pub or_unchanged : {E A : Type 0} → A → Result E A → A
or_unchanged a (ok b) = b
or_unchanged a (err e) = a

-- The occurrence that a call of `record` adds to its producer: one, unless it raises.
abbrev pub counted : {E A : Type 0} → Result E A → ℕ → ℕ
counted (ok a) n = n
counted (err e) n = 0

module _ {Resolver : Type 0} where
  -- What the candidate in the worker's hands turns out to stand for, when it is written.
  abbrev pub credit_of_work : Env → Option (Work Resolver) → String → ℕ
  credit_of_work env (some (candidate c)) q = due env (candidate c) q
  credit_of_work env (some (write w)) q = 0
  credit_of_work env none q = 0

  abbrev pub held_by_work : String → Option (Work Resolver) → ℕ
  held_by_work q (some (write w)) = carries q (some w)
  held_by_work q (some (candidate c)) = 0
  held_by_work q none = 0

  -- The occurrences of scope `s` that a candidate in the worker's hands stands for.
  abbrev pub held_candidate : String → Option (Work Resolver) → ℕ
  held_candidate s (some (write w)) = 0
  held_candidate s (some (candidate c)) = CandidateLaws.count_of s c
  held_candidate s none = 0

module _ {Resolver Store : Type 0} where
  -- The occurrences of a producer that `record` accepted and that are not yet written.
  abbrev pub waiting : String → Ledger Resolver Store → ℕ
  waiting q ℓ = occurrences_of q ℓ.queue + held_by_work q ℓ.in_flight

  -- The occurrences of a scope that `record_deferred` accepted and that the worker has not yet
  -- finished: those still queued, and those of the candidate that it holds.
  abbrev pub deferred_waiting : String → Ledger Resolver Store → ℕ
  deferred_waiting s ℓ = CandidateLaws.occurrences_of s ℓ.candidates + held_candidate s ℓ.in_flight

  -- Both queues meet their invariants.
  pub record IsSound (size : String → ℕ) (ℓ : Ledger Resolver Store) : Type 0 where
    pub queue_valid : QueueLaws.IsValid size ℓ.queue
    pub candidates_valid : CandidateLaws.IsValid size ℓ.candidates

module _ {Resolver Store : Type 0} (repo : Repository Store) where
  unfoldable pub apply : Event Resolver → Ledger Resolver Store → Ledger Resolver Store
  unfolding work_from
  apply (recorded p o) ℓ = or_unchanged ℓ (record_observed ℓ p o)
  apply (deferred s o r) ℓ = or_unchanged ℓ (record_deferred ℓ s o r)
  apply closing ℓ = close ℓ
  apply (worked env) ℓ = work repo env ℓ

  unfoldable pub run : List (Event Resolver) → Ledger Resolver Store → Ledger Resolver Store
  unfolding apply
  run [] ℓ = ℓ
  run (e ∷ es) ℓ = run es (apply e ℓ)

  -- The occurrences of producer `q` that an event brings in: an accepted `record`, or a candidate
  -- whose callback names the producer.
  unfoldable pub credit : String → Event Resolver → Ledger Resolver Store → ℕ
  credit q (recorded p o) ℓ = counted (record_observed ℓ p o) (share p q 1)
  credit q (deferred s o r) ℓ = 0
  credit q closing ℓ = 0
  credit q (worked env) ℓ = credit_of_work env ℓ.in_flight q

  unfoldable pub credits : String → List (Event Resolver) → Ledger Resolver Store → ℕ
  unfolding credit apply
  credits q [] ℓ = 0
  credits q (e ∷ es) ℓ = credit q e ℓ + credits q es (apply e ℓ)

  -- The occurrences of scope `s` that an event brings in: one for an accepted `record_deferred`.
  unfoldable pub entry : String → Event Resolver → Ledger Resolver Store → ℕ
  entry s (deferred scope o r) ℓ =
      counted (record_deferred ℓ scope o r) (if str_eq scope s then 1 else 0)
  entry s (recorded p o) ℓ = 0
  entry s closing ℓ = 0
  entry s (worked env) ℓ = 0

  -- The occurrences of scope `s` that an event finishes: those of the candidate that the worker
  -- held before its step.
  unfoldable pub finish : String → Event Resolver → Ledger Resolver Store → ℕ
  finish s (worked env) ℓ = held_candidate s ℓ.in_flight
  finish s (recorded p o) ℓ = 0
  finish s (deferred scope o r) ℓ = 0
  finish s closing ℓ = 0

  unfoldable pub entries : String → List (Event Resolver) → Ledger Resolver Store → ℕ
  unfolding entry apply
  entries s [] ℓ = 0
  entries s (e ∷ es) ℓ = entry s e ℓ + entries s es (apply e ℓ)

  unfoldable pub finishes : String → List (Event Resolver) → Ledger Resolver Store → ℕ
  unfolding finish apply
  finishes s [] ℓ = 0
  finishes s (e ∷ es) ℓ = finish s e ℓ + finishes s es (apply e ℓ)

  -- The books of a scope after one event, provided that no failure is remembered after it.
  abbrev pub IsSettled : String → ℕ → ℕ → Ledger Resolver Store → Ledger Resolver Store → Type 0
  IsSettled s came gone ℓ ℓ' = deferred_waiting s ℓ' + gone ≡ deferred_waiting s ℓ + came

  -- The books of a producer after one event, provided that no failure is remembered after it.
  abbrev pub IsBalanced : String → ℕ → Ledger Resolver Store → Ledger Resolver Store → Type 0
  IsBalanced q gained ℓ ℓ' =
      repo.revision q ℓ'.store + waiting q ℓ' ≡ repo.revision q ℓ.store + waiting q ℓ + gained
