-- ===== src/Agent/Service.antt =====
-- packages/stackflow-agent/src/agent-service.js: `StackflowAgentService`. The wallet that signs and
-- submits is a parameter (Wallet); each call of the service runs to its end before the next begins.
pub mod Wallet
pub mod Outgoing
pub mod Incoming
pub mod Accept
pub mod Dispute
pub mod Amounts
pub mod Moves
pub mod Queries
