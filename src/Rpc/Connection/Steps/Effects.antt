-- ===== src/Rpc/Connection/Steps/Effects.antt =====
-- What each step of a connection does to its exchanges: it opens one, settles some, or none.
use mokei.Common.{
  ℕ, ◌≡◌, refl, sym, ◌∙◌, Option, none, some, List, [], ◌∷◌, Bool, true, false, if◌then◌else◌,
  RequestId, request_key, string_key, arith, Bool-cases, inl, inr, is_some,
}
use mokei.Common.Json.{Json}
use mokei.Common.OrderedMap.{has}
use mokei.Rpc.Message.{Response, Cause, plain_error, internal_error}
use mokei.Rpc.Scheduler
use mokei.Rpc.Scheduler.{Scheduler, refused, pending}
use mokei.Rpc.Exchange.{Registry, Failure, end_all}
use mokei.Rpc.Exchange.History.{
  Outbound, Event, opens_once, opens_stream, responds, sends_frame, cancels, fails, closes, ends,
  fresh, settled_once, none_left_hanging,
}
use mokei.Rpc.Exchange.History
use mokei.Rpc.Connection.State.{
  Connection, Message, Routed, routes, passes, throws, HeldRequest, Handled, value, nothing, held,
  thrown, write_response, is_aborted, with_exchanges, with_aborts, on_abort, on_abort_each,
  request_id,
}
use mokei.Rpc.Connection.Receive.{
  handle_message, accept_as, accept_with_id, accept_request, route_notification, reject,
  cancel_request, cancelled_id, is_cancelled, finish_as, end_handler, claim_as, write_held,
  reject_as, schedule_as,
}
use mokei.Rpc.Connection.Send.{close, give_up}

-- The part of a connection that its exchanges and request ids are.
abbrev pub outbound : Connection → Outbound
outbound c = record { registry = c.exchanges; next_id = c.next_id }

-- `d` is `c` after some events of the registry.
pub record Reaches (c d : Connection) : Type 0 where
  pub events : List Event
  pub same : outbound d ≡ History.run (outbound c) events

pub Reaches-none : (c d : Connection) → outbound d ≡ outbound c → Reaches c d
unfolding History.run
Reaches-none c d e = record { events = []; same = e }

pub Reaches-one :
    (c d : Connection) (e : Event) → outbound d ≡ History.step (outbound c) e → Reaches c d
unfolding History.run
Reaches-one c d e same = record { events = e ∷ []; same = same }

outbound-on_abort :
    (id : RequestId) (h : HeldRequest) (c : Connection) → outbound (on_abort id h c) ≡ outbound c
unfolding on_abort
outbound-on_abort id h c = ground arith

outbound-on_abort_each :
    (m : List (RequestId × HeldRequest)) (c : Connection)
    → outbound (on_abort_each m c) ≡ outbound c
unfolding on_abort_each
outbound-on_abort_each [] c = refl
outbound-on_abort_each ((id, h) ∷ rest) c =
    outbound-on_abort_each rest (on_abort id h c) ∙ outbound-on_abort id h c

outbound-with_exchanges :
    (r : Registry) (c : Connection)
    → outbound (with_exchanges r c) ≡ record { registry = r; next_id = c.next_id }
unfolding with_exchanges
outbound-with_exchanges r c = refl

-- A step whose exchanges are settled by one event.
pub settled_by :
    (c : Connection) (r : Registry) (e : Event)
    → History.step (outbound c) e ≡ record { registry = r; next_id = c.next_id }
    → Reaches c (with_exchanges r c)
settled_by c r e h = Reaches-one c _ e (outbound-with_exchanges r c ∙ sym h)

outbound-schedule_as :
    (c : Connection) (o : Scheduler Message × Scheduler.Outcome)
    → outbound (schedule_as c o) ≡ outbound c
unfolding schedule_as
outbound-schedule_as c (s, refused r) = refl
outbound-schedule_as c (s, pending a) = refl

pub Reaches-if :
    (b : Bool) (c d e : Connection) → Reaches c d → Reaches c e → Reaches c (if b then d else e)
Reaches-if true c d e u v = u
Reaches-if false c d e u v = v

accept_request-Reaches :
    (id : RequestId) (m : Message) (c : Connection) → Reaches c (accept_request id m c)
unfolding accept_request
accept_request-Reaches id m c =
    Reaches-if c.disposing c _ _ (Reaches-none c _ refl)
      (Reaches-none c _ (outbound-schedule_as c _))

accept_with_id-Reaches :
    (id : RequestId) (m : Message) (c : Connection) → Reaches c (accept_with_id id m c)
unfolding accept_with_id History.step
accept_with_id-Reaches id m c =
    Reaches-if (is_some m.method) c _ _ (accept_request-Reaches id m c)
      (settled_by c _ (responds id (record { id = id; error = m.error; result = m.result })) refl)

cancel_request-Reaches : (id : Option RequestId) (c : Connection) → Reaches c (cancel_request id c)
unfolding cancel_request with_aborts
cancel_request-Reaches none c = Reaches-none c c refl
cancel_request-Reaches (some id) c = Reaches-none c _ (outbound-on_abort_each c.held _)

route_notification-Reaches :
    (m : Message) (r : Routed) (c : Connection) → Reaches c (route_notification m r c)
unfolding route_notification History.step
route_notification-Reaches m (routes id frame) c = settled_by c _ (sends_frame id frame) refl
route_notification-Reaches m passes c = Reaches-none c _ refl
route_notification-Reaches m (throws e) c = Reaches-none c _ refl

reject-Reaches : (id : Option RequestId) (m : Message) (c : Connection) → Reaches c (reject id m c)
unfolding reject History.step
reject-Reaches none m c = Reaches-none c _ refl
reject-Reaches (some id) m c =
    let invalid : Failure = Failure.rpc (plain_error internal_error "Invalid response") in
    Reaches-if (is_some m.method) c _ _ (Reaches-none c _ refl) (
      Reaches-if (has c.exchanges.exchanges id) c _ _ (settled_by c _ (fails id invalid) refl)
        (Reaches-none c _ refl))

accept_as-Reaches :
    (routing : Message → Routed) (id : Option RequestId) (m : Message) (c : Connection)
    → Reaches c (accept_as routing id m c)
unfolding accept_as
accept_as-Reaches routing (some id) m c = accept_with_id-Reaches id m c
accept_as-Reaches routing none m c =
    Reaches-if (is_cancelled m.method) c _ _ (cancel_request-Reaches (cancelled_id m.params) c)
      (route_notification-Reaches m (routing m) c)

pub handle_message-Reaches :
    (validate : Message → Bool) (routing : Message → Routed) (c : Connection) (m : Message)
    → Reaches c (handle_message validate routing c m)
unfolding handle_message
handle_message-Reaches validate routing c m =
    Reaches-if (validate m) c _ _ (accept_as-Reaches routing (request_id m.id) m c)
      (reject-Reaches (request_id m.id) m c)

outbound-end_handler :
    (id : RequestId) (a : ℕ) (h : Handled) (c : Connection)
    → outbound (end_handler id a h c).0 ≡ outbound c
unfolding end_handler
outbound-end_handler id a (value v) c = refl
outbound-end_handler id a nothing c = refl
outbound-end_handler id a held c = refl
outbound-end_handler id a (thrown e) c = refl

outbound-write_response :
    (r : Option Response) (c : Connection) → outbound (write_response r c) ≡ outbound c
unfolding write_response
outbound-write_response none c = refl
outbound-write_response (some r) c = refl

pub outbound-finish_as :
    (a : ℕ) (h : Handled) (id : Option RequestId) (c : Connection)
    → outbound (finish_as a h id c) ≡ outbound c
unfolding finish_as
outbound-finish_as a h none c = refl
outbound-finish_as a h (some id) c = elim (Bool-cases (is_aborted a c.scheduler.trace)) [
  | inl gone ↦ rw gone refl
  | inr alive ↦ rw alive (outbound-write_response _ _ ∙ outbound-end_handler id a h c)
]

pub outbound-claim_as :
    (id : RequestId) (h : Option HeldRequest) (c : Connection)
    → outbound (claim_as id h c).0 ≡ outbound c
unfolding claim_as
outbound-claim_as id none c = refl
outbound-claim_as id (some h) c = ground arith

pub outbound-write_held :
    (id : RequestId) (v : Json) (h : Option HeldRequest) (c : Connection)
    → outbound (write_held id v h c) ≡ outbound c
unfolding write_held
outbound-write_held id v none c = refl
outbound-write_held id v (some h) c = ground arith

pub outbound-reject_as :
    (id : RequestId) (e : Cause) (c : Connection) (won : Bool)
    → outbound (reject_as id e (c, won)) ≡ outbound c
unfolding reject_as
outbound-reject_as id e c true = refl
outbound-reject_as id e c false = refl

pub give_up-Reaches :
    (c : Connection) (id : RequestId) (reason : Failure) → Reaches c (give_up c id reason)
unfolding give_up History.step with_exchanges
give_up-Reaches c id reason =
    Reaches-if (has c.exchanges.exchanges id) c _ _ (Reaches-one c _ (cancels id reason) refl)
      (Reaches-none c _ refl)

pub outbound-close :
    (c : Connection) (reason : Failure)
    → c.closed ≡ false
    → outbound (close c reason)
      ≡ record { registry = end_all c.exchanges reason; next_id = c.next_id }
unfolding close with_exchanges with_aborts
outbound-close c reason open_yet = simp open_yet (outbound-on_abort_each c.held _)

pub close-Reaches : (c : Connection) (reason : Failure) → Reaches c (close c reason)
unfolding close History.step with_exchanges with_aborts
close-Reaches c reason =
    Reaches-if c.closed c _ _ (Reaches-none c _ refl)
      (Reaches-one c _ (ends reason) (outbound-on_abort_each c.held _))
