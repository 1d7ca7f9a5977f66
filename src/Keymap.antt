-- ===== src/Keymap.antt =====
-- packages/desktop-linux/src/x11-keysyms.ts, x11-keymap.ts and x11-prebind.ts: which keys a text
-- needs, what the server's keymap says, and which empty keys are bound.
pub mod Keysyms
pub mod Coverage
pub mod Wire
pub mod Parse
pub mod Lookup
pub mod WellFormed
pub mod Bounds
pub mod Planning
pub mod Distinct
mod Tests
