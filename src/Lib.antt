-- ===== src/Lib.antt =====
-- mokei is a toolkit for the Model Context Protocol: JSON-RPC between a client and a server over a
-- transport, with long-running tool calls as tasks. This library models the RPC layer of
-- packages/context-rpc, the tasks and subscriptions of packages/context-server, the sessions, replay
-- buffer and header checks of packages/http-server with the headers that packages/http-client writes,
-- the retries of packages/model-provider, the input rounds of packages/context-client, the runs of
-- packages/flow-host, the event channel of packages/session and the span tree of packages/flow-client,
-- translated from their TypeScript sources, and proves what they guarantee.
--
-- The RPC layer. `ContextRPC` (packages/context-rpc/src/rpc.ts) reads frames from a transport and
-- writes to it. A request that comes in goes through `RequestScheduler` (scheduler.ts), which starts
-- at most `maxConcurrentRequests` handlers and queues at most `maxQueuedRequests` others; a request
-- that goes out opens an exchange in `ExchangeRegistry` (exchange.ts), which settles its promise, and
-- may have continuations in `ContinuationStore` (continuation.ts).
--   Rpc/Message: `Response`, `RPCError` and their conversions (error.ts, and codes of
--     packages/context-protocol/src/rpc.ts).
--   Rpc/Scheduler: the scheduler as a record with one function per method. `Scheduler.step` is a
--     call of a method or the end of a handler; a `run` is any sequence of them. Handlers are not
--     run: a handler is the value that it was given for, and its end is an event with its response.
--     The trace holds the effects, newest first: starts, aborts and answers.
--   Rpc/Exchange: the registry in the same way, its trace the settled promises and the calls of
--     stream handlers. Rpc/Continuation: the store of continuations.
--   Rpc/Connection/State, Receive, Send: `ContextRPC`, which composes the three. The outbox and the
--     error reports are lists. Rpc/Connection/Steps: everything that may happen to a connection. The
--     message validator and `routeStreamNotification` are parameters, any functions of a message. A
--     promise that the source awaits is a later step, with one exception: the end of a handler, the
--     scheduler's release of its slot and the write of its response are one step.
--
-- Tasks. `ManagedTasks` (packages/context-server/src/task-manager.ts) keeps task records in a store
-- (task-store.ts) and changes each by a read, a change and a write that is refused when the revision
-- has changed.
--   Tasks/Record: the record, and the helpers on it. Times are numbers of milliseconds.
--   Tasks/Changes: the change callbacks of every method, as functions from the record to a patch, to
--     nothing or to an error, and the `check` of `#waitForOutcome`.
--   Tasks/Store: `createMemoryTaskStore`. Tasks/Manager: `#mutate`, with the calls that other clients
--     make between its accesses as data, and the access checks of `#visible` and `#expire`.
--   Tasks/Access: `create`, `update` and `cancel`, as a client of the server reaches them.
--   Tasks/Handle: the writes of a task's work through its handle.
--
-- Server-sent events.
--   Sse: `SSEWriter` (packages/http-server/src/sse-writer.ts), with its replay buffer as a ring of
--     slots, and the frames that it writes.
--
-- Retries.
--   Retry: `retryDelay` and `retryStreamChat` (packages/model-provider/src/retry.ts). The provider's
--     answers, the random source and `shouldRetry` are parameters; the loop recurs on the retries
--     that are left, so it needs no fuel.
--
-- Subscriptions.
--   Subscriptions/Writer: `SubscriptionWriter` (packages/context-server/src/subscriptions.ts). That a
--     write resolves or rejects is an event, so every interleaving is a sequence of events.
--   Subscriptions/Hub: `createSubscriptionHub` of the same file. State has the registrations, FanOut what
--     is sent to whom, Handles the handles, timers and disposal, and Soundness the agreement of all
--     these. The end of an access check and the firing of a timer are events; `setTimeout` is a parameter.
--
-- HTTP.
--   HttpServer/Sessions: `SessionManager`, `isSessionOwner`, `appendReplay` and `eventsAfter`
--     (packages/http-server/src/session.ts). Times and new ids are given; `delete` is split at the
--     disposal of the session's server. What the handler (handler.ts) does with the fields of a session
--     that it found is an event.
--   Headers/Values: `encodeHeaderValue` (packages/http-client/src/x-mcp-header.ts) and
--     `decodeHeaderValue` (packages/http-server/src/headers.ts). `TextEncoder`, `TextDecoder`, `btoa`
--     and `atob` are parameters; Headers/Values/RoundTrip says what is documented of them.
--   Headers/Params: `buildParamHeaders` and `validateParamHeaders` of the same files.
--   Headers/Standard: the headers that `HTTPTransport` (packages/http-client/src/transport.ts) sets for
--     a message, and `validateStandardHeaders`.
--
-- Agent events.
--   AgentEvents: `AgentEventChannel` (packages/session/src/agent-event-channel.ts).
--
-- Input in several rounds.
--   RoundTrips: `runInputRequiredFlow` (packages/context-client/src/mrtr.ts). What the dispatches, the
--     pauses and the retries of a round come to, and its time, are given.
--
-- Flow runs.
--   FlowHost/Runs: `createMemoryRunStore` (packages/flow-host/src/run-store.ts). FlowHost/Traces:
--     `createMemoryTraceStore` (trace-store.ts), with `getTrace` in FlowHost/Traces/Reading.
--     FlowHost/Traces/Latest follows a batch from its addition to its reading. FlowHost/Transitions: `transition` (transitions.ts),
--     with what others do between its read and its write. FlowHost/Pruning: `pruneRuns`
--     (prune-runs.ts), over these stores and the one of tasks.
--
-- Traces.
--   FlowClient/SpanTree: `nestSpans` (packages/flow-client/src/span-tree.ts).
--
-- Bounds and fuel. Numbers are natural numbers, and numbers in JSON are integers, so a request
-- id that is a fraction is not modelled. `#drain` recurs on the queue, which each round shortens.
-- `#mutate` has no bound in the source: it recurs on a list of rounds, and ends in the first round in
-- which nobody else comes in between (Tasks/Manager/Progress). `visit` of the span tree is given as much
-- depth as there are spans, which is enough (FlowClient/SpanTree/Visiting). Decimal digits are written
-- with more rounds than a number has digits. A flow of rounds recurs on the rounds that are left of
-- `maxRounds`, and `transition` on its attempts. Numbers in headers are compared exactly, without the
-- rounding of doubles; those from 10^21 on, which the source writes with an exponent, are not modelled.
--
-- Not modelled: transports, timers but those of the hub (a timeout is a step), abort signals of the caller beyond
-- their effect, tracing, the waits of disposal for writes that are in flight, recovery of tasks after a
-- restart, and the other packages.
--
-- Shared: Common has the names of the libraries that the modules use, the insertion-ordered map that a
-- JavaScript `Map` is, and JSON values.
pub mod AgentEvents
pub mod Common
pub mod FlowClient
pub mod FlowHost
pub mod Headers
pub mod HttpServer
pub mod Retry
pub mod RoundTrips
pub mod Rpc
pub mod Sse
pub mod Subscriptions
pub mod Tasks
