-- ===== src/Session.antt =====
-- packages/core/src/session.ts and target.ts: session records, the process checks on them, and the
-- choice of a session.
pub mod Records
pub mod Liveness
pub mod Registry
pub mod Targets
mod Tests
