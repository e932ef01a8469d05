-- ===== src/Agent/Tests.antt =====
-- The theorems on packages/stackflow-agent/src at concrete values.
mod Samples
mod OfStore
mod OfService
mod OfWatcher
mod OfSource
