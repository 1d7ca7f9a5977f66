-- ===== src/Toml.antt =====
-- packages/agent-installers/src/tomlScan.ts: where the top level of a TOML document is.
pub mod Texts
pub mod Markers
pub mod Scan
pub mod Automaton
pub mod Blocks
pub mod Runs
pub mod Sections
pub mod Editing
pub mod Outside
pub mod Inspection
mod Tests
