-- ===== src/Update.antt =====
-- internal/actions/update.go: which containers a run updates and restarts, and how.
pub mod Select
pub mod Implicit
pub mod Pinned
pub mod Stop
pub mod Restart
pub mod Batch
pub mod Rolling
pub mod Scan
pub mod Run
pub mod Action
pub mod Keyed
pub mod Cleanup
pub mod Plan
pub mod Listed
pub mod Complete
pub mod Sample
mod Tests
