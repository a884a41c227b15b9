-- ===== src/Rpc/Connection.antt =====
-- packages/context-rpc/src/rpc.ts: the class `ContextRPC`, over the scheduler, the exchanges and the
-- continuations. Incoming frames, ends of handlers, terminals of held responses, timers, aborts and
-- failed writes are steps; what is written to the transport and what is reported stands in `outbox`
-- and `errors`, newest first. The transport, the message validator and `routeStreamNotification`
-- are parameters, and so is what a handler answers. Not modelled: the tracking of writes that are
-- under way and the deadlines of `dispose`, which only bound how long it waits.
pub mod State
pub mod Receive
pub mod Send
pub mod Steps
