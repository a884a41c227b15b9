-- ===== src/HttpServer.antt =====
-- packages/http-server: the sessions that a server keeps for its clients.
pub mod Sessions
