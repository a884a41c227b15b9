-- ===== src/Rpc/Connection/State.antt =====
-- packages/context-rpc/src/rpc.ts: the state of `ContextRPC`, and the parts that its methods share.
use mokei.Common.{
  ℕ, ◌-◌, String, Option, none, some, List, [], ◌∷◌, Bool, false, if◌then◌else◌, not, ◌&&◌, ◌||◌,
  length, take, RequestId, integer, string, request_key, nat_key, string_key, concat, ◌==◌,
}
use mathlib.Core.List.{reverse}
use mokei.Common.Json.{Json, int, text}
use mokei.Common.OrderedMap.{OrderedMap, delete}
use mokei.Rpc.Message.{Response, Cause}
use mokei.Rpc.Scheduler
use mokei.Rpc.Scheduler.{Scheduler, refused, pending, aborts}
use mokei.Rpc.Exchange
use mokei.Rpc.Exchange.{
  Registry, Failure, StreamFrame, StreamHandlers, SettleReason, reports_settled, PendingExchange,
}
use mokei.Rpc.Continuation
use mokei.Rpc.Continuation.{ContinuationStore}

-- A frame as it was read. `none` is a member that is not there.
pub record Message : Type 0 where
  pub id : Option Json
  pub method : Option String
  pub params : Option Json
  pub error : Option Json
  pub result : Option Json

-- What the transport is given to write.
pub data Outgoing : Type 0 where
  response : Response → Outgoing
  request : RequestId → (method : String) → Json → Outgoing
  cancelled : RequestId → Outgoing

-- An entry of `#heldRequests`: its signal's controller, and whether `terminal` has won the race and
-- taken the abort listener off.
pub record HeldRequest : Type 0 where
  pub controller : ℕ
  pub claimed : Bool

-- A request handler's promise: a result that is not null, nothing (null or undefined), a held
-- response, or a rejection.
pub data Handled : Type 0 where
  value : Json → Handled
  nothing : Handled
  held : Handled
  thrown : Cause → Handled

-- What `routeStreamNotification` does with a notification.
pub data Routed : Type 0 where
  routes : RequestId → StreamFrame → Routed
  passes : Routed
  throws : Cause → Routed

pub data Report : Type 0 where
  invalid_message : Report
  from_cause : Cause → Report

pub record Connection : Type 0 where
  pub closed : Bool
  pub disposing : Bool
  pub next_id : ℕ
  pub exchanges : Registry
  pub continuations : ContinuationStore
  pub scheduler : Scheduler Message
  pub held : OrderedMap RequestId HeldRequest
  pub outbox : List Outgoing
  pub errors : List Report
  -- Notifications that were handed to `_handleNotification`, newest first.
  pub notified : List Message

unfoldable pub connect : ℕ → ℕ → Connection
connect max_concurrent max_queued = record {
  closed = false;
  disposing = false;
  next_id = 0;
  exchanges = Exchange.empty;
  continuations = Continuation.empty;
  scheduler = Scheduler.init max_concurrent max_queued;
  held = [];
  outbox = [];
  errors = [];
  notified = [];
}

-- `isRequestID`
unfoldable pub request_id : Option Json → Option RequestId
request_id (some (int n)) = some (integer n)
request_id (some (text s)) = some (string s)
request_id _ = none

unfoldable pub write : Outgoing → Connection → Connection
write m c = record c { outbox = m ∷ c.outbox }

unfoldable pub write_response : Option Response → Connection → Connection
unfolding write
write_response none c = c
write_response (some r) c = write (response r) c

unfoldable pub report : Report → Connection → Connection
report e c = record c { errors = e ∷ c.errors }

unfoldable pub reason_text : SettleReason → String
reason_text SettleReason.result = "result"
reason_text SettleReason.error = "error"
reason_text SettleReason.cancel = "cancel"
reason_text SettleReason.closed = "closed"

-- The `onSettle` that `_registerStreamExchange` wraps around the caller's.
unfoldable pub on_settle : Exchange.Effect → ContinuationStore → ContinuationStore
unfolding reason_text
on_settle (reports_settled id reason f) s =
    Continuation.clear_for_exchange s id
      (Failure.plain (concat ("Exchange settled (" ∷ reason_text reason ∷ ")" ∷ [])))
on_settle e s = s

unfoldable pub on_settle_each : List Exchange.Effect → ContinuationStore → ContinuationStore
unfolding on_settle
on_settle_each [] s = s
on_settle_each (e ∷ es) s = on_settle_each es (on_settle e s)

-- A change to the registry, with the handlers of the streams that it settles.
unfoldable pub with_exchanges : Registry → Connection → Connection
unfolding on_settle_each
with_exchanges r c =
    let fresh = take (length r.trace - length c.exchanges.trace) r.trace in
    record c { exchanges = r; continuations = on_settle_each (reverse fresh) c.continuations }

-- `signal.aborted`
unfoldable pub is_aborted : ℕ → List (Scheduler.Effect Message) → Bool
is_aborted a [] = false
is_aborted a (aborts b ∷ t) = b == a || is_aborted a t
is_aborted a (e ∷ t) = is_aborted a t

-- `#removeHeld`
unfoldable pub remove_held : RequestId → Connection → Connection
remove_held id c = record c {
  held = delete c.held id;
  scheduler = Scheduler.complete_detached c.scheduler id;
}

-- `onAbort` of `#holdRequest`: fires when the signal aborts, unless `terminal` came first.
unfoldable pub on_abort : RequestId → HeldRequest → Connection → Connection
unfolding remove_held
on_abort id h c =
    if not h.claimed && is_aborted h.controller c.scheduler.trace then remove_held id c else c

unfoldable pub on_abort_each : OrderedMap RequestId HeldRequest → Connection → Connection
unfolding on_abort
on_abort_each [] c = c
on_abort_each ((id, h) ∷ rest) c = on_abort_each rest (on_abort id h c)

-- A scheduler call that may abort signals, with the listeners that they fire.
unfoldable pub with_aborts : Scheduler Message → Connection → Connection
unfolding on_abort_each
with_aborts s c = on_abort_each c.held (record c { scheduler = s })
