-- ===== src/Rpc/Exchange.antt =====
-- packages/context-rpc/src/exchange.ts. A pending exchange's promise goes by the number of its
-- controller; of a stream's handlers the model keeps which of them were given. What the registry
-- does to the outside is written to `trace`, newest first.
pub mod Settling
pub mod History
pub mod Routing
mod Tests
use mokei.Common.{
  ℕ, String, Option, none, some, List, [], ◌∷◌, Bool, true, false, if◌then◌else◌, is_some,
  RequestId, request_key,
}
use mokei.Common.Json.{Json}
use mokei.Common.OrderedMap.{OrderedMap, get, has, set, delete}
use mokei.Rpc.Message.{RpcError, Response, from_response, plain_error, internal_error}

pub data SettleReason : Type 0 where
  result error cancel closed : SettleReason

-- What a promise is rejected with: an `RPCError`, or another error by its message.
pub data Failure : Type 0 where
  rpc : RpcError → Failure
  plain : (message : String) → Failure

pub data Verdict : Type 0 where
  ok : Json → Verdict
  failed : Failure → Verdict

pub record StreamHandlers : Type 0 where
  pub on_progress : Bool
  pub on_input_request : Bool
  pub on_settle : Bool

pub data PendingExchange : Type 0 where
  once : (controller : ℕ) → PendingExchange
  stream : (controller : ℕ) → StreamHandlers → PendingExchange

pub data StreamFrame : Type 0 where
  progress : Json → StreamFrame
  input_request : (token : String) → Json → StreamFrame
  result : Json → StreamFrame
  error : Failure → StreamFrame

pub data Effect : Type 0 where
  resolves : (controller : ℕ) → Json → Effect
  rejects : (controller : ℕ) → Failure → Effect
  reports_progress : RequestId → Json → Effect
  asks_input : RequestId → (token : String) → Json → Effect
  reports_settled : RequestId → SettleReason → Option Failure → Effect

pub record Registry : Type 0 where
  pub exchanges : OrderedMap RequestId PendingExchange
  pub trace : List Effect

unfoldable pub empty : Registry
empty = record { exchanges = []; trace = [] }

abbrev pub controller_of : PendingExchange → ℕ
controller_of (once c) = c
controller_of (stream c handlers) = c

emit : Effect → Registry → Registry
emit e r = record r { trace = e ∷ r.trace }

failure_of : Verdict → Option Failure
failure_of (ok v) = none
failure_of (failed f) = some f

promise_effect : ℕ → Verdict → Effect
promise_effect c (ok v) = resolves c v
promise_effect c (failed f) = rejects c f

report_settle : RequestId → PendingExchange → SettleReason → Verdict → Registry → Registry
unfolding emit failure_of
report_settle id (once c) reason verdict r = r
report_settle id (stream c handlers) reason verdict r =
    if handlers.on_settle then emit (reports_settled id reason (failure_of verdict)) r else r

-- `#settle`
unfoldable pub settle : Registry → RequestId → PendingExchange → SettleReason → Verdict → Registry
unfolding emit report_settle promise_effect
settle r id exchange reason verdict = report_settle id exchange reason verdict (
    emit (promise_effect (controller_of exchange) verdict)
      (record r { exchanges = delete r.exchanges id }))

unfoldable pub register_once : Registry → RequestId → ℕ → Registry
register_once r id controller = record r { exchanges = set r.exchanges id (once controller) }

unfoldable pub register_stream : Registry → RequestId → ℕ → StreamHandlers → Registry
register_stream r id controller handlers = record r {
  exchanges = set r.exchanges id (stream controller handlers);
}

-- The reason and the verdict of a response, in the order of the source's tests: a well-formed error,
-- then a result, then a malformed response.
response_settles : Option RpcError → Option Json → SettleReason × Verdict
response_settles (some e) value = (SettleReason.error, failed (rpc e))
response_settles none (some v) = (SettleReason.result, ok v)
response_settles none none =
    (SettleReason.error, failed (rpc (plain_error internal_error "Malformed response")))

pub settle_found : Registry → RequestId → Option PendingExchange → SettleReason × Verdict → Registry
unfolding settle
settle_found r id none how = r
settle_found r id (some exchange) (reason, verdict) = settle r id exchange reason verdict

unfoldable pub route_response : Registry → RequestId → Response → Registry
unfolding settle_found response_settles
route_response r id response =
    settle_found r id (get r.exchanges id)
      (response_settles (from_response response) response.result)

route_frame : Registry → RequestId → PendingExchange → StreamHandlers → StreamFrame → Registry
unfolding settle emit
route_frame r id exchange handlers (progress v) =
    if handlers.on_progress then emit (reports_progress id v) r else r
route_frame r id exchange handlers (input_request token v) =
    if handlers.on_input_request then emit (asks_input id token v) r else r
route_frame r id exchange handlers (StreamFrame.result v) =
    settle r id exchange SettleReason.result (ok v)
route_frame r id exchange handlers (StreamFrame.error f) =
    settle r id exchange SettleReason.error (failed f)

pub route_frame_as : Registry → RequestId → Option PendingExchange → StreamFrame → Registry
unfolding route_frame
route_frame_as r id none frame = r
route_frame_as r id (some (once c)) frame = r
route_frame_as r id (some (stream c handlers)) frame =
    route_frame r id (stream c handlers) handlers frame

unfoldable pub route_stream_frame : Registry → RequestId → StreamFrame → Registry
unfolding route_frame_as
route_stream_frame r id frame = route_frame_as r id (get r.exchanges id) frame

unfoldable pub cancel_exchange : Registry → RequestId → Failure → Registry
unfolding settle_found
cancel_exchange r id reason =
    settle_found r id (get r.exchanges id) (SettleReason.cancel, failed reason)

unfoldable pub fail : Registry → RequestId → Failure → Registry
unfolding settle_found
fail r id reason = settle_found r id (get r.exchanges id) (SettleReason.error, failed reason)

pub end_each : OrderedMap RequestId PendingExchange → Failure → Registry → Registry
unfolding settle
end_each [] reason r = r
end_each ((id, exchange) ∷ rest) reason r =
    end_each rest reason (settle r id exchange SettleReason.closed (failed reason))

unfoldable pub end_all : Registry → Failure → Registry
unfolding end_each
end_all r reason = end_each r.exchanges reason r

pub close_as : Registry → RequestId → Option PendingExchange → Failure → Registry
unfolding settle
close_as r id none reason = r
close_as r id (some (once c)) reason = r
close_as r id (some (stream c handlers)) reason =
    settle r id (stream c handlers) SettleReason.closed (failed reason)

unfoldable pub close : Registry → RequestId → Failure → Registry
unfolding close_as
close r id reason = close_as r id (get r.exchanges id) reason
