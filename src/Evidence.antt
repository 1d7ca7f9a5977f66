-- ===== src/Evidence.antt =====
-- packages/core/src/evidence-outcome.ts: the outcome that an agent records for a run, and when one is
-- refused.
pub mod Outcome
pub mod Acceptance
mod Tests
