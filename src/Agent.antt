-- ===== src/Agent.antt =====
-- packages/stackflow-agent/src: the agent that keeps signed pipe states and disputes closures.
mod Tests
pub mod Utils
pub mod Store
pub mod Service
pub mod EventSource
pub mod Watcher
