-- ===== src/Rpc/Connection/Steps/Inbound.antt =====
-- The request scheduler of a connection: every step is a sequence of the scheduler's own calls. So
-- what holds of every history of the scheduler holds of every connection.
use mokei.Common.{
  ℕ, ◌≡◌, refl, sym, ap, subst, ◌∙◌, Option, none, some, List, [], ◌∷◌, ◌++◌, Bool, true, false,
  if◌then◌else◌, not, ◌&&◌, RequestId, request_key, arith, Bool-cases, inl, inr, is_some, ite,
  dec_lt, ◌+◌, nat_key,
}
use mokei.Common.Json.{Json}
use mokei.Common.OrderedMap.{get, has}
use mokei.Rpc.Message.{Response, Cause}
use mokei.Rpc.Exchange.{Failure}
use mokei.Rpc.Scheduler
use mokei.Rpc.Scheduler.{
  Scheduler, Call, schedules, cancels, aborts_all, detaches, completes_detached, settles, refused,
  pending,
}
use mokei.Rpc.Scheduler.Invariant.{run-init-IsValid}
use mokei.Rpc.Scheduler.Valid.{IsValid}
use mokei.Rpc.Scheduler.Accounting.{queued_as, flying, answered, answered_once}
use mokei.Rpc.Scheduler.Fairness.{Below, started, started_in_order}
use mokei.Rpc.Connection.State.{
  Connection, Message, Routed, routes, passes, throws, HeldRequest, Handled, value, nothing, held,
  thrown, connect, with_aborts, on_abort, on_abort_each, request_id, write_response, is_aborted,
}
use mokei.Rpc.Connection.Receive.{
  handle_message, accept_as, accept_with_id, accept_request, route_notification, reject,
  cancel_request, cancelled_id, is_cancelled, finish_handler, finish_as, end_handler,
  resolve_terminal, write_terminal, reject_terminal, claim_as, write_held, reject_as, schedule_as,
}
use mokei.Rpc.Connection.Send.{
  close, end_requests, begin_dispose, send_request, send_stream_request, give_up, abort_request,
  time_out, fail_write, stream_closed,
}
use mokei.Rpc.Connection.Steps.{
  Step, reads, handler_ends, terminal_resolves, terminal_writes, terminal_rejects, sends,
  sends_stream, aborts_request, times_out, write_fails, stream_ends, disposes, closes, step, run,
}

-- The scheduler of `d` is that of `c` after some calls.
record Follows (c d : Connection) : Type 0 where
  calls : List (Call Message)
  same : d.scheduler ≡ Scheduler.run c.scheduler calls

Follows-none : (c d : Connection) → d.scheduler ≡ c.scheduler → Follows c d
unfolding Scheduler.run
Follows-none c d e = record { calls = []; same = e }

Follows-one :
    (c d : Connection) (k : Call Message) → d.scheduler ≡ Scheduler.step c.scheduler k → Follows c d
unfolding Scheduler.run
Follows-one c d k e = record { calls = k ∷ []; same = e }

run-append :
    (s : Scheduler Message) (ks ls : List (Call Message))
    → Scheduler.run s (ks ++ ls) ≡ Scheduler.run (Scheduler.run s ks) ls
unfolding Scheduler.run
run-append s [] ls = refl
run-append s (k ∷ ks) ls = run-append (Scheduler.step s k) ks ls

Follows-trans : (c d e : Connection) → Follows c d → Follows d e → Follows c e
Follows-trans c d e u v = record {
  calls = u.calls ++ v.calls;
  same =
      v.same
      ∙ ap (λ s. Scheduler.run s v.calls) u.same
      ∙ sym (run-append c.scheduler u.calls v.calls);
}

Follows-if :
    (b : Bool) (c d e : Connection) → Follows c d → Follows c e → Follows c (if b then d else e)
Follows-if true c d e u v = u
Follows-if false c d e u v = v

on_abort-Follows : (id : RequestId) (h : HeldRequest) (c : Connection) → Follows c (on_abort id h c)
unfolding on_abort Scheduler.step
on_abort-Follows id h c =
    Follows-if (not h.claimed && is_aborted h.controller c.scheduler.trace) c _ _
      (Follows-one c _ (completes_detached id) refl) (Follows-none c c refl)

on_abort_each-Follows :
    (m : List (RequestId × HeldRequest)) (c : Connection) → Follows c (on_abort_each m c)
unfolding on_abort_each
on_abort_each-Follows [] c = Follows-none c c refl
on_abort_each-Follows ((id, h) ∷ rest) c =
    Follows-trans c (on_abort id h c) _ (on_abort-Follows id h c)
      (on_abort_each-Follows rest (on_abort id h c))

with_aborts-Follows :
    (c : Connection) (s : Scheduler Message) (k : Call Message)
    → s ≡ Scheduler.step c.scheduler k
    → Follows c (with_aborts s c)
unfolding with_aborts
with_aborts-Follows c s k e =
    Follows-trans c (record c { scheduler = s }) _ (Follows-one c _ k e)
      (on_abort_each-Follows c.held (record c { scheduler = s }))

scheduler-schedule_as :
    (c : Connection) (o : Scheduler Message × Scheduler.Outcome) → (schedule_as c o).scheduler ≡ o.0
unfolding schedule_as
scheduler-schedule_as c (s, refused r) = refl
scheduler-schedule_as c (s, pending a) = refl

accept_with_id-Follows :
    (id : RequestId) (m : Message) (c : Connection) → Follows c (accept_with_id id m c)
unfolding accept_with_id accept_request Scheduler.step
accept_with_id-Follows id m c =
    Follows-if (is_some m.method) c _ _
      (Follows-if c.disposing c _ _ (Follows-none c _ refl)
        (Follows-one c _ (schedules id m) (scheduler-schedule_as c _)))
      (Follows-none c _ refl)

cancel_request-Follows : (id : Option RequestId) (c : Connection) → Follows c (cancel_request id c)
unfolding cancel_request Scheduler.step
cancel_request-Follows none c = Follows-none c c refl
cancel_request-Follows (some id) c = with_aborts-Follows c _ (cancels id) refl

route_notification-Follows :
    (m : Message) (r : Routed) (c : Connection) → Follows c (route_notification m r c)
unfolding route_notification
route_notification-Follows m (routes id frame) c = Follows-none c _ refl
route_notification-Follows m passes c = Follows-none c _ refl
route_notification-Follows m (throws e) c = Follows-none c _ refl

reject-Follows : (id : Option RequestId) (m : Message) (c : Connection) → Follows c (reject id m c)
unfolding reject
reject-Follows none m c = Follows-none c _ refl
reject-Follows (some id) m c = Follows-if (is_some m.method) c _ _ (Follows-none c _ refl) (
    Follows-if (has c.exchanges.exchanges id) c _ _ (Follows-none c _ refl) (Follows-none c _ refl))

accept_as-Follows :
    (routing : Message → Routed) (id : Option RequestId) (m : Message) (c : Connection)
    → Follows c (accept_as routing id m c)
unfolding accept_as
accept_as-Follows routing (some id) m c = accept_with_id-Follows id m c
accept_as-Follows routing none m c =
    Follows-if (is_cancelled m.method) c _ _ (cancel_request-Follows (cancelled_id m.params) c)
      (route_notification-Follows m (routing m) c)

end_handler-Follows :
    (id : RequestId) (a : ℕ) (h : Handled) (c : Connection) → Follows c (end_handler id a h c).0
unfolding end_handler Scheduler.step
end_handler-Follows id a (value v) c = Follows-none c c refl
end_handler-Follows id a nothing c = Follows-none c c refl
end_handler-Follows id a held c = Follows-one c _ (detaches id) refl
end_handler-Follows id a (thrown e) c = Follows-none c _ refl

settled-Follows :
    (a : ℕ) (r : Option Response) (d : Connection)
    → Follows d (write_response r (record d { scheduler = Scheduler.settle d.scheduler a r }))
unfolding write_response Scheduler.step
settled-Follows a none d = Follows-one d _ (settles a none) refl
settled-Follows a (some r) d = Follows-one d _ (settles a (some r)) refl

finish_as-Follows :
    (a : ℕ) (h : Handled) (id : Option RequestId) (c : Connection) → Follows c (finish_as a h id c)
unfolding finish_as
finish_as-Follows a h none c = Follows-none c c refl
finish_as-Follows a h (some id) c = elim (Bool-cases (is_aborted a c.scheduler.trace)) [
  | inl gone ↦ rw gone (settled-Follows a none c)
  | inr alive ↦ rw alive (
      Follows-trans c (end_handler id a h c).0 _ (end_handler-Follows id a h c)
        (settled-Follows a (end_handler id a h c).1 (end_handler id a h c).0))
]

scheduler-claim_as :
    (id : RequestId) (h : Option HeldRequest) (c : Connection)
    → (claim_as id h c).0.scheduler ≡ c.scheduler
unfolding claim_as
scheduler-claim_as id none c = refl
scheduler-claim_as id (some h) c = ground arith

write_held-Follows :
    (id : RequestId) (v : Json) (h : Option HeldRequest) (c : Connection)
    → Follows c (write_held id v h c)
unfolding write_held Scheduler.step
write_held-Follows id v none c = Follows-none c c refl
write_held-Follows id v (some h) c =
    Follows-if h.claimed c _ _ (Follows-one c _ (completes_detached id) refl)
      (Follows-none c c refl)

reject_as-Follows :
    (id : RequestId) (e : Cause) (c : Connection) (won : Bool) → Follows c (reject_as id e (c, won))
unfolding reject_as Scheduler.step
reject_as-Follows id e c true = Follows-one c _ (completes_detached id) refl
reject_as-Follows id e c false = Follows-none c c refl

close-Follows : (c : Connection) (reason : Failure) → Follows c (close c reason)
unfolding close Scheduler.step
close-Follows c reason = Follows-if c.closed c _ _ (Follows-none c c refl) (
    Follows-trans c (end_requests c reason) _ (Follows-none c _ refl)
      (with_aborts-Follows (end_requests c reason) _ aborts_all refl))

module _ (validate : Message → Bool) (routing : Message → Routed) where
  step-Follows : (c : Connection) (s : Step) → Follows c (step validate routing c s)
  unfolding step handle_message finish_handler resolve_terminal write_terminal reject_terminal
      begin_dispose send_request send_stream_request abort_request time_out give_up fail_write
      stream_closed
  step-Follows c (reads m) =
      Follows-if (validate m) c _ _ (accept_as-Follows routing (request_id m.id) m c)
        (reject-Follows (request_id m.id) m c)
  step-Follows c (handler_ends a h) = finish_as-Follows a h _ c
  step-Follows c (terminal_resolves id) = Follows-none c _ (scheduler-claim_as id _ c)
  step-Follows c (terminal_writes id v) = write_held-Follows id v _ c
  step-Follows c (terminal_rejects id e) =
      let (d, won) = claim_as id (get c.held id) c in
      Follows-trans c d _ (Follows-none c d (scheduler-claim_as id _ c))
        (reject_as-Follows id e d won)
  step-Follows c (sends aborted method params) =
      Follows-if aborted c _ _ (Follows-none c c refl) (Follows-none c _ refl)
  step-Follows c (sends_stream aborted method params handlers) =
      Follows-if aborted c _ _ (Follows-none c c refl) (Follows-none c _ refl)
  step-Follows c (aborts_request id) =
      Follows-if (has c.exchanges.exchanges id) c _ _ (Follows-none c _ refl)
        (Follows-none c c refl)
  step-Follows c (times_out id ms) =
      Follows-if (has c.exchanges.exchanges id) c _ _ (Follows-none c _ refl)
        (Follows-none c c refl)
  step-Follows c (write_fails id reason) =
      Follows-if (has c.exchanges.exchanges id) c _ _ (Follows-none c _ refl)
        (Follows-none c c refl)
  step-Follows c (stream_ends id none) = Follows-none c _ refl
  step-Follows c (stream_ends id (some reason)) = Follows-none c _ refl
  step-Follows c disposes = Follows-none c _ refl
  step-Follows c (closes reason) = close-Follows c reason

  run-Follows : (c : Connection) (ss : List Step) → Follows c (run validate routing c ss)
  unfolding run
  run-Follows c [] = Follows-none c c refl
  run-Follows c (s ∷ ss) =
      Follows-trans c (step validate routing c s) _ (step-Follows c s)
        (run-Follows (step validate routing c s) ss)

abbrev pub KeepsPromises : ℕ → Scheduler Message → Type 0
KeepsPromises a s =
    IsValid s
    × (queued_as a s.queued + flying a s.flights + answered a s.trace
        ≡ ite (dec_lt a s.next_controller) 1 0)
    × Below s.next_controller (started s.trace)

-- Whatever a new connection with these limits reads, sends and is told, the guarantees of its
-- scheduler hold: the scheduler is valid, each request that was accepted is queued, in flight or
-- answered, once, and handlers have started in the order in which requests were accepted.
pub connection-KeepsPromises :
    (validate : Message → Bool) (routing : Message → Routed) (n m : ℕ) (ss : List Step) (a : ℕ)
    → KeepsPromises a (run validate routing (connect n m) ss).scheduler
unfolding connect
connection-KeepsPromises validate routing n m ss a =
    let f = run-Follows validate routing (connect n m) ss in
    subst (KeepsPromises a) (sym f.same)
      (run-init-IsValid n m f.calls, answered_once n m f.calls a, started_in_order n m f.calls)
