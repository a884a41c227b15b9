-- ===== src/Headers.antt =====
-- The headers that mirror a request's body over HTTP: how packages/http-client writes them, and how
-- packages/http-server checks them.
pub mod Values
pub mod Params
pub mod Accepted
pub mod Standard
mod Tests
