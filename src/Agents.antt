-- ===== src/Agents.antt =====
-- packages/agent-installers/src: how the lab's MCP servers are registered with coding agents.
pub mod Objects
pub mod Owned
pub mod Snippet
pub mod JsonConfig
pub mod Merging
pub mod Current
pub mod Removal
mod Tests
