-- ===== src/Repository/Artifacts/Fenced.antt =====
-- Commits under a fence that was given out and is not held.
use marimo_export.Prelude.{List}
use marimo_export.Repository.Leases.Stale.{LeaseEvent, history}
use marimo_export.Repository.Artifacts.{Tables}
use marimo_export.Repository.Artifacts.Generations
use marimo_export.Repository.Artifacts.Generations.{Claim}
use marimo_export.Repository.Artifacts.PreparedStates

-- The tables when the leases have gone on.
abbrev pub later : List LeaseEvent → Tables → Tables
later es t = record t { leases = history es t.leases }
