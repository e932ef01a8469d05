-- ===== src/Node.antt =====
-- server/src: the stackflow node, a server of the TypeScript part of the repository.
pub mod Principals
pub mod Counterparty
pub mod Disputes
mod Tests
