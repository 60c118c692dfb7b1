-- ===== src/Sorter/Kahn.antt =====
-- The loop against the edges of the dependency graph.
pub mod Edges
pub mod Invariant
pub mod Build
pub mod Start
pub mod Groups
pub mod Lookup
pub mod Correct
pub mod Outcome
