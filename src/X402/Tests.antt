-- ===== src/X402/Tests.antt =====
-- The theorems on packages/x402-client/src at concrete values.
mod OfStore
mod OfClient
mod OfSource
