-- ===== src/Rpc/Connection/Receive.antt =====
-- packages/context-rpc/src/rpc.ts: frames that come in, and what becomes of request handlers.
use mokei.Common.{
  ℕ, String, Option, none, some, ◌∷◌, Bool, true, false, if◌then◌else◌, is_some, RequestId,
  request_key, nat_key, string_key, ◌===◌,
}
use mokei.Common.Json.{Json, object}
use mokei.Common.OrderedMap.{get, has, set}
use mokei.Rpc.Message.{
  Response, Cause, to_response, error_response, plain_error, member, internal_error,
  invalid_request, server_shutting_down,
}
use mokei.Rpc.Scheduler
use mokei.Rpc.Scheduler.{Scheduler, refused, pending, aborts}
use mokei.Rpc.Exchange
use mokei.Rpc.Exchange.{
  Registry, Failure, StreamFrame, StreamHandlers, SettleReason, reports_settled, PendingExchange,
}
use mokei.Rpc.Connection.State.{
  Connection, Handled, HeldRequest, Message, Routed, from_cause, held, invalid_message, is_aborted,
  nothing, passes, remove_held, report, request_id, response, routes, thrown, throws, value,
  with_aborts, with_exchanges, write, write_response,
}

-- A request to run: the scheduler's refusal is written at once.
unfoldable pub schedule_as : Connection → Scheduler Message × Scheduler.Outcome → Connection
unfolding write
schedule_as c (s, refused r) = write (response r) (record c { scheduler = s })
schedule_as c (s, pending a) = record c { scheduler = s }

-- The request branch of `_handleMessage`, with the write of its response in the read loop.
unfoldable pub accept_request : RequestId → Message → Connection → Connection
unfolding schedule_as write
accept_request id m c =
    if c.disposing
    then write
        (response (to_response (plain_error server_shutting_down "Server is shutting down") id)) c
    else schedule_as c (Scheduler.schedule c.scheduler id m)

unfoldable pub route_notification : Message → Routed → Connection → Connection
unfolding with_exchanges report
route_notification m (routes id frame) c =
    with_exchanges (Exchange.route_stream_frame c.exchanges id frame) c
route_notification m passes c = record c { notified = m ∷ c.notified }
route_notification m (throws e) c = report (from_cause e) c

-- `cancelled.params.requestId`
unfoldable pub cancelled_id : Option Json → Option RequestId
unfolding request_id
cancelled_id (some (object fs)) = request_id (member fs "requestId")
cancelled_id _ = none

unfoldable pub cancel_request : Option RequestId → Connection → Connection
unfolding with_aborts
cancel_request none c = c
cancel_request (some id) c = with_aborts (Scheduler.cancel c.scheduler id) c

unfoldable pub is_cancelled : Option String → Bool
is_cancelled none = false
is_cancelled (some m) = m === "notifications/cancelled"

-- The branch of an invalid message.
unfoldable pub reject : Option RequestId → Message → Connection → Connection
unfolding write with_exchanges report
reject none m c = report invalid_message c
reject (some id) m c =
    if is_some m.method
    then write (response (to_response (plain_error invalid_request "Invalid request") id)) c
    else if has c.exchanges.exchanges id
    then with_exchanges
        (Exchange.fail c.exchanges id (Failure.rpc (plain_error internal_error "Invalid response")))
        c
    else report invalid_message c

-- The branch of a valid message with an id: a response, or a request.
unfoldable pub accept_with_id : RequestId → Message → Connection → Connection
unfolding with_exchanges accept_request
accept_with_id id m c =
    if is_some m.method
    then accept_request id m c
    else with_exchanges
        (Exchange.route_response c.exchanges id
          (record { id = id; error = m.error; result = m.result }))
        c

unfoldable pub accept_as : (Message → Routed) → Option RequestId → Message → Connection → Connection
unfolding accept_with_id is_cancelled cancel_request cancelled_id route_notification
accept_as routing (some id) m c = accept_with_id id m c
accept_as routing none m c =
    if is_cancelled m.method
    then cancel_request (cancelled_id m.params) c
    else route_notification m (routing m) c

-- `_handleMessage`, and what the read loop does with what it returns. Without a
-- `routeStreamNotification` the routing passes every notification on.
unfoldable pub handle_message :
    (Message → Bool) → (Message → Routed) → Connection → Message → Connection
unfolding accept_as reject request_id
handle_message validate routing c m =
    if validate m then accept_as routing (request_id m.id) m c else reject (request_id m.id) m c

-- The `.then` of `_handleMessage`: the response that the scheduler is given for a handler that has
-- ended under the controller `a`.
unfoldable pub end_handler : RequestId → ℕ → Handled → Connection → Connection × Option Response
unfolding report
end_handler id a (value v) c = (c, some (record { id = id; error = none; result = some v }))
end_handler id a nothing c = (c, some (to_response (plain_error internal_error "No result") id))
end_handler id a held c = (
  record c {
    held = set c.held id (record { controller = a; claimed = false });
    scheduler = Scheduler.detach c.scheduler id;
  },
  none,
)
end_handler id a (thrown e) c = (report (from_cause e) c, some (error_response id e))

unfoldable pub finish_as : ℕ → Handled → Option RequestId → Connection → Connection
unfolding end_handler write_response is_aborted
finish_as a h none c = c
finish_as a h (some id) c =
    let (d, r) = (if is_aborted a c.scheduler.trace then (c, none) else end_handler id a h c) in
    write_response r (record d { scheduler = Scheduler.settle d.scheduler a r })

-- A handler in flight ends: its response goes through the scheduler to `#writeResponse`.
unfoldable pub finish_handler : Connection → ℕ → Handled → Connection
unfolding finish_as
finish_handler c a h = finish_as a h (get c.scheduler.flights a) c

-- `held.terminal` settles: it claims the race unless an abort has removed the entry.
unfoldable pub claim_as : RequestId → Option HeldRequest → Connection → Connection × Bool
claim_as id none c = (c, false)
claim_as id (some h) c =
    if h.claimed
    then (c, false)
    else (record c { held = set c.held id (record h { claimed = true }) }, true)

unfoldable pub resolve_terminal : Connection → RequestId → Connection
unfolding claim_as
resolve_terminal c id = (claim_as id (get c.held id) c).0

unfoldable pub write_held : RequestId → Json → Option HeldRequest → Connection → Connection
unfolding write remove_held
write_held id v none c = c
write_held id v (some h) c =
    if h.claimed
    then remove_held id (write (response (record { id = id; error = none; result = some v })) c)
    else c

-- After `beforeTerminal` the response is written, and the entry is removed.
unfoldable pub write_terminal : Connection → RequestId → Json → Connection
unfolding write_held
write_terminal c id v = write_held id v (get c.held id) c

unfoldable pub reject_as : RequestId → Cause → Connection × Bool → Connection
unfolding report remove_held
reject_as id e (c, true) = remove_held id (report (from_cause e) c)
reject_as id e (c, false) = c

unfoldable pub reject_terminal : Connection → RequestId → Cause → Connection
unfolding claim_as reject_as
reject_terminal c id e = reject_as id e (claim_as id (get c.held id) c)
