-- ===== src/Cleanup.antt =====
-- internal/actions/cleanup.go: which instances of the program are removed, and how.
pub mod Excess
pub mod Removal
pub mod Handover
pub mod Removes
pub mod Counts
mod Tests
