-- ===== src/Rpc/Connection/Steps/Tests.antt =====
-- A connection with one slot: a request of the peer is answered, a request of its own is settled
-- when the connection closes.
use mokei.Common.{
  ℕ, ◌+◌, ◌≡◌, refl, none, some, List, [], ◌∷◌, Bool, true, false, integer, ite, dec_lt,
  RequestId-discrete, ℕ_discrete, String-discrete,
}
use mokei.Common.Json.{int, pos, text, object, end, field, null, ℤ-discrete}
use mokei.Common.OrderedMap.{get, has, set, delete}
use mokei.Rpc.Message.{member, from_response}
use mokei.Rpc.Scheduler
use mokei.Rpc.Exchange
use mokei.Rpc.Exchange.{plain}
use mokei.Rpc.Exchange.Settling.{pending_as, settlements}
use mokei.Rpc.Continuation
use mokei.Rpc.Connection.State.{
  Connection, Message, Routed, passes, value, held, response, request, connect, is_aborted,
}
use mokei.Rpc.Connection.Receive.{handle_message, finish_handler, resolve_terminal, write_terminal}
use mokei.Rpc.Connection.Send.{close, send_request, abort_request}
use mokei.Rpc.Connection.Steps.{
  Step, reads, handler_ends, terminal_resolves, terminal_writes, sends, step, run,
}
use mokei.Rpc.Connection.Steps.Outbound.{request_settled_once, close_settles_requests}
use mokei.Rpc.Connection.Steps.Inbound.{KeepsPromises, connection-KeepsPromises}

-- Names what the tests compute with.
evaluation : Unit {0}
unfolding run step connect handle_message finish_handler resolve_terminal write_terminal close
    send_request abort_request get has set delete member from_response is_aborted RequestId-discrete
    ℤ-discrete ℕ_discrete String-discrete Scheduler.init Scheduler.schedule Scheduler.cancel
    Scheduler.settle Scheduler.detach Scheduler.drain Scheduler.drain_loop Scheduler.abort_all
    Scheduler.complete_detached Exchange.empty Exchange.register_once Exchange.route_response
    Exchange.cancel_exchange Exchange.end_all Exchange.settle Continuation.empty
    Continuation.clear_for_exchange Continuation.clear_all
evaluation = tt

abbrev ask : ℕ → Message
ask n = record {
  id = some (int (pos n));
  method = some "tools/call";
  params = none;
  error = none;
  result = none;
}

abbrev cancel_notice : ℕ → Message
cancel_notice n = record {
  id = none;
  method = some "notifications/cancelled";
  params = some (object (field "requestId" (int (pos n)) end));
  error = none;
  result = none;
}

abbrev accept_all : Message → Bool
accept_all m = true

abbrev pass_all : Message → Routed
pass_all m = passes

abbrev steps : List Step
steps =
    reads (ask 7)
    ∷ reads (ask 8)
    ∷ reads (cancel_notice 8)
    ∷ handler_ends 0 (value (text "done"))
    ∷ sends false "ping" null
    ∷ []

abbrev after_steps : Connection
after_steps = run accept_all pass_all (connect 1 1) steps

-- The cancelled request is not answered.
outbox_example :
    after_steps.outbox
    ≡ request (integer (pos 0)) "ping" null
      ∷ response (record { id = integer (pos 7); error = none; result = some (text "done") })
      ∷ []
unfolding evaluation
outbox_example = refl

-- A held response frees the slot at once and is written when its terminal resolves.
abbrev held_steps : List Step
held_steps =
    reads (ask 7)
    ∷ reads (ask 8)
    ∷ handler_ends 0 held
    ∷ handler_ends 1 (value (text "second"))
    ∷ terminal_resolves (integer (pos 7))
    ∷ reads (cancel_notice 7)
    ∷ terminal_writes (integer (pos 7)) (text "first")
    ∷ []

held_example :
    (run accept_all pass_all (connect 1 1) held_steps).outbox
    ≡ response (record { id = integer (pos 7); error = none; result = some (text "first") })
      ∷ response (record { id = integer (pos 8); error = none; result = some (text "second") })
      ∷ []
unfolding evaluation
held_example = refl

request_settled_once_example :
    pending_as 0 after_steps.exchanges.exchanges + settlements 0 after_steps.exchanges.trace
    ≡ ite (dec_lt 0 after_steps.next_id) 1 0
request_settled_once_example = request_settled_once accept_all pass_all 1 1 steps 0

close_settles_requests_example :
    let c = close after_steps (plain "Transport closed") in
    (c.exchanges.exchanges ≡ []) × (settlements 0 c.exchanges.trace ≡ ite (dec_lt 0 c.next_id) 1 0)
unfolding evaluation
close_settles_requests_example =
    close_settles_requests accept_all pass_all 1 1 steps (plain "Transport closed") 0 refl

connection-KeepsPromises_example : KeepsPromises 1 after_steps.scheduler
connection-KeepsPromises_example = connection-KeepsPromises accept_all pass_all 1 1 steps 1
