-- ===== src/X402.antt =====
-- packages/x402-client/src: the client that pays for HTTP requests over a pipe.
pub mod Numbers
pub mod Store
pub mod Client
pub mod PipeSource
mod Tests
