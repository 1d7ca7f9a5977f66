-- ===== src/Ndjson.antt =====
-- packages/browser/src/ndjson.ts: the checks of a JSON-RPC message, the record decoder and the
-- serializer. `TextDecoder`, `JSON.parse` and `JSON.stringify` are the parameter `Platform`.
pub mod Messages
pub mod Buffer
pub mod Decoding
pub mod Chunks
pub mod Stream
pub mod RoundTrip
pub mod Tests
