-- ===== src/Rpc/Connection/Steps.antt =====
-- Everything that may happen to a connection, and what it means to the exchanges and the scheduler:
-- each step of the connection is a sequence of their own operations.
pub mod Outbound
pub mod Effects
pub mod Inbound
mod Tests
use mokei.Common.{ℕ, String, Option, List, [], ◌∷◌, Bool, RequestId}
use mokei.Common.Json.{Json}
use mokei.Rpc.Message.{Cause}
use mokei.Rpc.Exchange.{Failure, StreamHandlers}
use mokei.Rpc.Connection.State.{Connection, Message, Routed, Handled, connect}
use mokei.Rpc.Connection.Receive.{
  handle_message, finish_handler, resolve_terminal, write_terminal, reject_terminal,
}
use mokei.Rpc.Connection.Send.{
  close, begin_dispose, send_request, send_stream_request, abort_request, time_out, fail_write,
  stream_closed,
}

pub data Step : Type 0 where
  reads : Message → Step
  handler_ends : (controller : ℕ) → Handled → Step
  terminal_resolves : RequestId → Step
  terminal_writes : RequestId → Json → Step
  terminal_rejects : RequestId → Cause → Step
  sends : (aborted : Bool) → (method : String) → Json → Step
  sends_stream : (aborted : Bool) → (method : String) → Json → StreamHandlers → Step
  aborts_request : RequestId → Step
  times_out : RequestId → (ms : ℕ) → Step
  write_fails : RequestId → Failure → Step
  stream_ends : RequestId → Option Failure → Step
  disposes : Step
  closes : Failure → Step

module _ (validate : Message → Bool) (routing : Message → Routed) where
  unfoldable pub step : Connection → Step → Connection
  step c (reads m) = handle_message validate routing c m
  step c (handler_ends a h) = finish_handler c a h
  step c (terminal_resolves id) = resolve_terminal c id
  step c (terminal_writes id v) = write_terminal c id v
  step c (terminal_rejects id e) = reject_terminal c id e
  step c (sends aborted method params) = send_request c aborted method params
  step c (sends_stream aborted method params handlers) =
      send_stream_request c aborted method params handlers
  step c (aborts_request id) = abort_request c id
  step c (times_out id ms) = time_out c id ms
  step c (write_fails id reason) = fail_write c id reason
  step c (stream_ends id reason) = stream_closed c id reason
  step c disposes = begin_dispose c
  step c (closes reason) = close c reason

  unfoldable pub run : Connection → List Step → Connection
  run c [] = c
  run c (s ∷ ss) = run (step c s) ss
