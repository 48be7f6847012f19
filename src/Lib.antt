-- ===== src/Lib.antt =====
-- marimo-export records the inputs that a running notebook was seen with, and prepares and
-- publishes exports for them. This library models the part of it that must not lose, miscount or
-- overrun what it was given: the observation ledger with its queues and its worker, the tables of
-- the repository that it writes to, the retention that decides which artifacts are dropped, the
-- leases that protect them, the commits of generations and prepared states under those leases, the
-- choice of an owner for each control, the budget of an export index, the canonical JSON and the
-- scan of a JSON text, and the parser of the event stream from a remote kernel.
--
-- Parts, with paths under packages/python/src/marimo_export:
--   Prelude       shared names, tests on numbers, lists measured by native numbers, results,
--                 and `latest_index`, the search from the end that both queues make.
--   Format        `_format.py` and `_repository/models.py`: the SHA-256 test; its child Names has
--                 `exact_fields` and the bounded names, its child Texts sets and orders of texts.
--   Controls      `_control_roots.py`: the candidates and the two walks over their dependencies; its
--                 child Aliases has `_control_set_aliases`, its child Select `select_control_roots`.
--   Json          `_json.py`: in its child Values `json_value` and `json_value_count`, in Canonical
--                 `_write_canonical`, in Preflight `_preflight_json` and `_skip_json_string`.
--   Observations.Inputs      `observations.py` (`ObservedInputs`, its bytes given) and the limits at
--                 the top of `_observations/queue.py`.
--   Observations.Queue       `_observations/queue.py`, `ObservationQueue`: `add`, `pop`, `clear` and
--                 `_enforce_limits`, a deque as a list from its oldest entry.
--   Observations.Candidates  `_observations/candidates.py`, `CandidateQueue`.
--   Observations.Ledger      `_observations/ledger.py`, `ObservationLedger`. The condition variable's
--                 critical sections are the steps: a call of a client, or `work`, in which the worker
--                 takes a piece or finishes the one that it holds. An event list is an interleaving.
--                 Ledger.Writes holds `_persist` and `_retry_write` over a repository interface.
--   Repository.Observations  `_repository/sqlite/observations.py` over tables as lists of rows.
--   Repository.Journal       `_repository/observations.py`, `ObservationRepository`'s
--                 `record`, `advance_revision`, `revision` and `clear`, in the write transaction
--                 of `_repository/sqlite/catalog.py`; its theorems fill the interface of Ledger.Writes.
--   Repository.Retention     `_repository/sqlite/retention.py`: `_Retained` with its three budgets, and
--                 in its child Selection `_make_room`, `_retained` and the victims; the answers of
--                 the queries are a `Catalog`. Its child Apply has `apply_retention` and
--                 `_prune_producers`, with the foreign keys of `_repository/sqlite/schema.py`.
--   Repository.Leases        `_repository/sqlite/leases.py`: leases on artifacts and staging paths; its
--                 child Fences has the reservations with their fences and the clean-up.
--                 The leases of a retention's `Catalog` are those that the clean-up has left.
--   Repository.Artifacts     `_repository/sqlite/artifacts.py`: pointers, rows and the admission under
--                 the three budgets; its children Generations and PreparedStates have the commits of
--                 `_repository/sqlite/generations.py` and `prepared_states.py` under a reservation.
--   Budget        `_index_budget.py`: the costs and `IndexProjection`; its child Objects relates
--                 `_object` to the canonical text of an object.
--   Remote.Sse    `_remote/sse.py`, `SSEParser`: a method returns the parser also where it raises.
--   Tests         the theorems applied to concrete inputs.
--
-- The ledger's clients call `add` of a queue; its worker pops a piece, writes it through the
-- repository interface with three attempts, and falls back to a bare advance where the vector is
-- over the repository's limit. A client's resolver, and what its lock and its closing do, are
-- parameters of each step (`Env`), so that the theorems hold for every behaviour of theirs.
--
-- Bounds and fuel: `feed_loop` runs on one more unit of fuel than the buffer has bytes, and each
-- round takes at least a newline from the buffer, so that the fuel does not end (Remote.Sse.Loop);
-- `close_loop` and `visit` run on one more unit than there are names, and in the one every name
-- waits at most once, in the other every call makes one more name active (Controls.Closure,
-- Controls.Acyclic). `scan_loop` runs on one more unit than the text has characters, and each
-- round takes at least one (Json.Ends). `count_loop` takes its fuel as an argument. The other
-- loops are structural. Python's integers do not wrap, and SQLite's range is tested as in the
-- source.
--
-- Not modelled: files, sockets, threads below the critical sections, sleeping, SQLite itself (its
-- statements are read by their documented meaning), UTF-8 decoding (a parameter), `json.loads`
-- with its hooks, the minimal descriptors of an index, the text of a quoted string (`json.dumps`) and of a
-- number (`str`, or `_ecmascript_number` of `_json.py`) and Python's scans of both (parameters of
-- Json), the errors of `canonical_bytes` in Budget, Python's test of an identifier (a
-- parameter of Controls), its limit on recursion, the canonical encoding of a vector, the
-- resolution of a producer from its source file, the reads of the vectors in the observation
-- tables, and the parts of the program that the components above do not name.
pub mod Budget
pub mod Controls
pub mod Format
pub mod Json
pub mod Observations
pub mod Prelude
pub mod Remote
pub mod Repository
mod Tests
