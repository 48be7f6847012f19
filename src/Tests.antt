-- ===== src/Tests.antt =====
-- Concrete runs of the definitions, and the main theorems at concrete inputs.
mod Observing
mod Streaming
mod Retaining
mod Leasing
mod Shapes
mod Committing
mod Selecting
mod Scanning
mod Refusing
mod Budgeting
