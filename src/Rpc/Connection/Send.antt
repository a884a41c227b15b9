-- ===== src/Rpc/Connection/Send.antt =====
-- packages/context-rpc/src/rpc.ts: requests that go out, and the end of the connection.
use mokei.Common.{
  ℕ, suc, String, Option, none, some, [], ◌∷◌, Bool, true, if◌then◌else◌, RequestId, integer,
  request_key, nat_key, string_key, concat, show_nat,
}
use mokei.Common.Json.{pos, Json}
use mokei.Common.OrderedMap.{has}
use mokei.Rpc.Scheduler
use mokei.Rpc.Scheduler.{Scheduler, refused, pending, aborts}
use mokei.Rpc.Exchange
use mokei.Rpc.Exchange.{
  Registry, Failure, StreamFrame, StreamHandlers, SettleReason, reports_settled, PendingExchange,
}
use mokei.Rpc.Continuation
use mokei.Rpc.Continuation.{ContinuationStore}
use mokei.Rpc.Connection.State.{Connection, cancelled, request, with_aborts, with_exchanges, write}

-- The exchanges and the continuations in `#endPendingRequests`.
unfoldable pub end_requests : Connection → Failure → Connection
unfolding with_exchanges
end_requests c reason =
    let ended = with_exchanges (Exchange.end_all c.exchanges reason) (record c { closed = true }) in
    record ended { continuations = Continuation.clear_all ended.continuations reason }

-- `#close`
unfoldable pub close : Connection → Failure → Connection
unfolding end_requests with_aborts
close c reason =
    if c.closed then c else with_aborts (Scheduler.abort_all c.scheduler) (end_requests c reason)

-- `#dispose`: from here on new requests are refused; the connection closes in a later step.
unfoldable pub begin_dispose : Connection → Connection
begin_dispose c = record c { disposing = true }

-- `request`, unless its signal had aborted before: then nothing is sent.
unfoldable pub send_request : Connection → (aborted : Bool) → (method : String) → Json → Connection
unfolding write
send_request c aborted method params =
    if aborted
    then c
    else write (request (integer (pos c.next_id)) method params) (record c {
      exchanges = Exchange.register_once c.exchanges (integer (pos c.next_id)) c.next_id;
      next_id = suc c.next_id;
    })

-- `_registerStreamExchange`; its `onSettle` is always given.
unfoldable pub send_stream_request :
    Connection → (aborted : Bool) → (method : String) → Json → StreamHandlers → Connection
unfolding write
send_stream_request c aborted method params handlers =
    if aborted
    then c
    else write (request (integer (pos c.next_id)) method params) (record c {
      exchanges =
          Exchange.register_stream c.exchanges (integer (pos c.next_id)) c.next_id
            (record handlers { on_settle = true });
      next_id = suc c.next_id;
    })

-- The controller of a request aborts, or its timer fires: if the exchange is still pending, it is
-- cancelled and the peer is told.
unfoldable pub give_up : Connection → RequestId → Failure → Connection
unfolding write with_exchanges
give_up c id reason =
    if has c.exchanges.exchanges id
    then write (cancelled id) (with_exchanges (Exchange.cancel_exchange c.exchanges id reason) c)
    else c

unfoldable pub abort_request : Connection → RequestId → Connection
unfolding give_up
abort_request c id = give_up c id (Failure.plain "Cancelled")

unfoldable pub time_out : Connection → RequestId → ℕ → Connection
unfolding give_up
time_out c id ms =
    give_up c id (Failure.plain (concat ("Request timed out after " ∷ show_nat ms ∷ "ms" ∷ [])))

-- The write of a request fails.
unfoldable pub fail_write : Connection → RequestId → Failure → Connection
unfolding with_exchanges
fail_write c id reason =
    if has c.exchanges.exchanges id
    then with_exchanges (Exchange.cancel_exchange c.exchanges id reason) c
    else c

-- The transport reports the end of a stream body.
unfoldable pub stream_closed : Connection → RequestId → Option Failure → Connection
unfolding with_exchanges
stream_closed c id none =
    with_exchanges (Exchange.close c.exchanges id (Failure.plain "stream closed")) c
stream_closed c id (some reason) = with_exchanges (Exchange.close c.exchanges id reason) c
