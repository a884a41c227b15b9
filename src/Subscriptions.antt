-- ===== src/Subscriptions.antt =====
-- packages/context-server/src/subscriptions.ts: the writer that delivers the frames of one
-- subscription, and the hub that decides who is sent what.
pub mod Writer
pub mod Hub
