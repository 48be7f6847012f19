-- ===== src/Observations.antt =====
-- `observations.py` and `_observations`: the inputs that notebook runs report, and their queues.
pub mod Inputs
pub mod Queue
pub mod Candidates
pub mod Ledger
