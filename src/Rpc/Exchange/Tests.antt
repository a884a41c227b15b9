-- ===== src/Rpc/Exchange/Tests.antt =====
-- The exchange registry and the continuations on concrete exchanges.
use mokei.Common.{
  ◌+◌, ◌≡◌, refl, none, some, List, [], ◌∷◌, true, false, RequestId-discrete, request_key,
  ℕ_discrete, ite, dec_lt,
}
use mokei.Common.Json.{text, ℤ-discrete}
use mokei.Common.OrderedMap.{get, has, set, delete}
use mokei.Rpc.Message.{from_response}
use mokei.Rpc.Exchange.{
  plain, Registry, resolves, rejects, reports_settled, SettleReason, progress, StreamHandlers,
  route_response, end_all, settle, register_once, register_stream, route_stream_frame, empty,
}
use mokei.Rpc.Exchange.Settling.{pending_as, settlements}
use mokei.Rpc.Exchange.History.{
  Event, opens_once, opens_stream, sends_frame, responds, ends, run, step, nth, fresh, settled_once,
}
use mokei.Rpc.Exchange.Routing.{verdict}

-- Names what the tests compute with.
evaluation : Unit {0}
unfolding run step register_once register_stream route_response route_stream_frame end_all settle
    empty get has set delete RequestId-discrete ℤ-discrete ℕ_discrete from_response verdict
evaluation = tt

abbrev quiet : StreamHandlers
quiet = record { on_progress = false; on_input_request = true; on_settle = true }

abbrev history : List Event
history =
    opens_once
    ∷ opens_stream quiet
    ∷ sends_frame (nth 1) (progress (text "half"))
    ∷ responds (nth 0) (record { id = nth 0; error = none; result = some (text "done") })
    ∷ ends (plain "Transport closed")
    ∷ []

history_trace :
    (run fresh history).registry.trace
    ≡ reports_settled (nth 1) SettleReason.closed (some (plain "Transport closed"))
      ∷ rejects 1 (plain "Transport closed")
      ∷ resolves 0 (text "done")
      ∷ []
unfolding evaluation
history_trace = refl

settled_once_example :
    pending_as 0 (run fresh history).registry.exchanges
      + settlements 0 (run fresh history).registry.trace
    ≡ ite (dec_lt 0 (run fresh history).next_id) 1 0
settled_once_example = settled_once history 0

abbrev one_pending : Registry
one_pending = (run fresh (opens_once ∷ [])).registry
