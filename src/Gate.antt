-- ===== src/Gate.antt =====
-- packages/browser/src/devtools-permits.ts and devtools-errors.ts: agent permits for relay calls.
pub mod Calls
pub mod Permits
pub mod Conservation
mod Tests
