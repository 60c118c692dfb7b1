-- ===== src/Sorter.antt =====
-- pkg/sorter/dependency.go: the order in which containers are updated.
pub mod Names
pub mod Graph
pub mod Errors
pub mod Queue
pub mod Cycle
pub mod Sort
pub mod Kahn
pub mod Dependencies
pub mod Watchtower
pub mod Targets
mod Tests
