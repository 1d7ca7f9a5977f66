-- ===== src/Lib.antt =====
-- pickforge: sessions that agents drive and that a human may take over.
--
-- The program keeps one record for each session (packages/core/src/session.ts), starts and stops
-- the session's desktop, android or browser legs (packages/core/src/session-lifecycle.ts), and
-- lets a human take control: the human's lease, the agents' permits and a teardown's drain are
-- files beside the record (packages/core/src/takeover.ts). The browser relay speaks JSON-RPC in
-- lines (packages/browser/src/ndjson.ts), and holds a permit for each call that it forwards
-- (packages/browser/src/devtools-permits.ts), which teardown and takeover wait for.
--
-- Base, Base/*: Booleans, lists, association lists and results that throw. Json: values as
-- `JSON.parse` gives them.
--
-- Ndjson/Messages is `assertJsonRpcMessage` and its parts, Ndjson/Buffer is `JsonRpcNdjsonBuffer`
-- (`push`, `end`) with `parseJsonRpcRecord` and `serializeJsonRpcMessage`. Ndjson/Chunks is the
-- pump's calls of `push`; it, Decoding, Stream and RoundTrip prove. The loop of `push` has the number of the chunk's bytes and
-- one as fuel: each round but the last takes a byte at least. UTF-8, JSON texts and their print
-- are parameters. The pump's streams, write queue and backpressure are not modelled.
--
-- Takeover/Records is the lease and the permit with `parseHumanLease` and
-- `parseAgentPermitRecord`; Takeover/Store is one session's files, its clock and its processes;
-- Takeover/Lease is the operations on the lease file; Takeover/Protocol is `acquireHumanLease`,
-- `runWithPermit` and `stopSessionAgentInput` as programs whose steps interleave, and the modules
-- below it are its invariant. There are any number of agents, humans and teardowns. An agent reads
-- the lease in one step and tests its time in a later one, as `checkHumanLeaseBusy` does; a renewal
-- and `unlinkIfMatches` (a read, then an unlink) are one step each; a process that died stays dead;
-- a UUID is drawn once. Staging files, abort signals, takeover evidence and the cleanup marker of
-- the record are not modelled.
--
-- Session/Records and Session/Registry are the record and `createSession`, `getSession`,
-- `listSessions` (Registry/Listing), `updateSession` and `destroySessionRecord`, over directories
-- as association lists by id; Session/Liveness is `isSessionProcessAlive`. A creation has the
-- source's five attempts. Session/Targets is the choice of a session by
-- packages/core/src/target.ts, up to `requireDisplay`. Read errors other than a missing or a
-- corrupt record, and the evidence run that a destruction closes, are not modelled.
-- What JSON loses of a record (`undefined`, an infinity, NaN) is not modelled: where it matters, a
-- theorem asks that the record reads back.
--
-- Lifecycle/Effects is asynchronous code as state passing; Create, Status, Teardown, Reap and
-- Destroy are the functions of session-lifecycle.ts. The legs' runtimes are parameters, as they
-- are in the source, and what a theorem needs of them is a hypothesis of it.
--
-- Gate/Calls is the map of forwarded calls and Gate/Permits the class `PermitGate`, each method
-- cut at its awaits; Gate/Conservation runs the parts in any order. Errors of a permit's release
-- and the wait for the pending releases are not modelled. The relay's order is kept in
-- one point: it takes the unanswered calls after it has closed the gate.
--
-- Lock/Protocol is packages/core/src/session-lock.ts: the lock file, the sentinels and the phase
-- of each call of `withSessionVncLock`, where an event is one file operation of one call or the
-- death of a process. Lock/Invariant, Exclusion and Progress prove. A call stands for its token,
-- and a process id is not reused. A cancellation, the time limit and a failed write are the move
-- `throws`.
--
-- Keymap/Keysyms, Wire, Parse, Lookup and Planning are x11-keysyms.ts, the parsers and the lookup
-- of x11-keymap.ts, and `planBindings` and `verifyBindings` of x11-prebind.ts, all in
-- packages/desktop-linux/src. Bytes are numbers, and what a parser has not read is a list. The
-- table of legacy symbols and the case tables of JavaScript are parameters. The X connection with
-- its requests, its deadline checks and the retries is not modelled.
--
-- Agents/Snippet and Agents/JsonConfig are the entries and the JSON edits of
-- packages/agent-installers/src (snippet.ts, jsonConfig.ts), over Agents/Objects. A file stands
-- for the value that `JSON.parse` makes of it, and `JSON.stringify` is a parameter where texts are
-- compared.
--
-- Toml/Scan is tomlScan.ts and Toml/Automaton its reference; Toml/Texts, Markers, Sections,
-- Editing and Inspection are the patterns, the marker split, the edits and the inspection of
-- tomlConfig.ts. A text is its list of UTF-16 units. A loop over a line has as many rounds as the
-- line has units, and the equality with the automaton shows that they are enough.
--
-- Evidence/Outcome is packages/core/src/evidence-outcome.ts: the fields of an outcome, the limits
-- and the acceptance against a run's directory, whose files, status and journal are given.
-- Redaction and `Date.parse` are parameters. The catalog and the append are not modelled.
--
-- Config/Merge is `deepMerge` and `loadConfig` of packages/core/src/config.ts, from what the two
-- files hold; which of the global paths is read is not modelled.
--
-- The Rust crates, the Android and browser drivers, the desktop's processes, the evidence journal
-- and its images, and the command line are not modelled: they start processes, draw images or
-- print.
pub mod Agents
pub mod Base
pub mod Config
pub mod Evidence
pub mod Gate
pub mod Json
pub mod Keymap
pub mod Lifecycle
pub mod Lock
pub mod Ndjson
pub mod Session
pub mod Takeover
pub mod Toml
