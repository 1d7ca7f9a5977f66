-- ===== src/Lifecycle.antt =====
-- packages/core/src/session-lifecycle.ts: creating, reporting, reaping and destroying sessions.
pub mod Effects
pub mod Legs
pub mod Create
pub mod Status
pub mod Teardown
pub mod Reap
pub mod Destroy
mod Tests
