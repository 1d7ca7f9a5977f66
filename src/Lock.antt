-- ===== src/Lock.antt =====
-- packages/core/src/session-lock.ts: the VNC lock of one session.
pub mod Protocol
pub mod Invariant
pub mod Exclusion
pub mod Progress
mod Tests
