-- ===== src/Takeover.antt =====
-- packages/core/src/takeover.ts: the human lease, the agent permits and the closure of a session's
-- input, as operations on the session's coordination files, and as interleaved steps.
pub mod Records
pub mod Codec
pub mod Store
pub mod Lease
pub mod Protocol
pub mod Tests
