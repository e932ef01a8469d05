-- ===== src/Agent/Watcher.antt =====
-- packages/stackflow-agent/src/watcher.js: the watcher that looks for closures and disputes them.
pub mod PipeState
pub mod Run
pub mod Once
pub mod Loops
pub mod Totals
pub mod Scan
pub mod Pipes
