-- ===== src/Config.antt =====
-- packages/core/src/config.ts: the layers of the configuration and their merge.
pub mod Merge
pub mod Precedence
mod Tests
