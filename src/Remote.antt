-- ===== src/Remote.antt =====
-- `_remote`: the client of a marimo server.
pub mod Sse
