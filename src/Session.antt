-- ===== src/Session.antt =====
-- pkg/session: what a run found and did for each container, and the report made of it.
pub mod Status
pub mod Progress
pub mod Report
mod Tests
