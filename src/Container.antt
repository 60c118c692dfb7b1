-- ===== src/Container.antt =====
-- pkg/container: the container object, its labels, its identifier and its links.
pub mod Data
pub mod Labels
pub mod Hooks
pub mod Client
pub mod ShortId
pub mod Identifier
pub mod Links
pub mod Cycles
mod Tests
