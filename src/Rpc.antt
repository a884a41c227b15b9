-- ===== src/Rpc.antt =====
-- packages/context-rpc: the JSON-RPC layer that clients and servers share.
pub mod Message
pub mod Scheduler
pub mod Exchange
pub mod Continuation
pub mod Connection
