-- ===== src/Observations/Inputs.antt =====
-- `ObservedInputs` of observations.py, what the queues raise, and the limits of _observations/queue.py.
use marimo_export.Prelude.{ℕ, ◌*◌, String, List, length, ◌≡◌}

-- One complete input vector: its fingerprint and its canonical bytes.
pub record ObservedInputs : Type 0 where
  pub fingerprint : String
  pub values_bytes : List ℕ

abbrev pub byte_count : ObservedInputs → ℕ
byte_count o = length o.values_bytes

abbrev pub max_pending_observations : ℕ
max_pending_observations = 256

abbrev pub max_pending_bytes : ℕ
max_pending_bytes = 16 * 1024 * 1024

abbrev pub max_pending_producers : ℕ
max_pending_producers = 32

abbrev pub max_observation_bytes : ℕ
max_observation_bytes = 1024 * 1024

-- `ObservationRejectedError` with its three messages, the `ValueError` on a scope, and the
-- `IndexError` of a pop from an empty deque.
pub data QueueError : Type 0 where
  too_large too_many_producers full bad_scope index_error : QueueError

-- A fingerprint is the digest of the canonical bytes, so it determines their number.
abbrev pub IsSized : (String → ℕ) → ObservedInputs → Type 0
IsSized size o = byte_count o ≡ size o.fingerprint
