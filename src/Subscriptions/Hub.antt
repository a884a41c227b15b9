-- ===== src/Subscriptions/Hub.antt =====
-- `createSubscriptionHub` of packages/context-server/src/subscriptions.ts. A registration goes by its
-- number, and so do its handle and its timer. The time is given, in milliseconds, and so is what the
-- access checks come to. What the hub does to the entries is written to `trace`, newest first.
pub mod State
pub mod FanOut
pub mod Handles
pub mod Lookup
pub mod Soundness
pub mod Registering
pub mod Settling
pub mod Listing
pub mod Ending
pub mod Timing
pub mod Counting
pub mod Delivery
pub mod Silence
pub mod Quiet
pub mod Expiring
mod Tests
