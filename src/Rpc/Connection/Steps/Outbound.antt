-- ===== src/Rpc/Connection/Steps/Outbound.antt =====
-- The exchanges of a connection: every step opens one, settles some, or leaves them alone. So what
-- holds of every history of the registry holds of every connection.
use mokei.Common.{
  ℕ, ◌≡◌, refl, sym, ap, subst, ◌∙◌, none, some, List, [], ◌∷◌, ◌++◌, Bool, true, false,
  request_key, string_key, ite, dec_lt, ◌+◌,
}
use mokei.Common.OrderedMap.{get, has}
use mokei.Rpc.Exchange.{Failure, end_all}
use mokei.Rpc.Exchange.Settling.{pending_as, settlements}
use mokei.Rpc.Exchange.History.{
  Outbound, Event, opens_once, opens_stream, responds, sends_frame, cancels, fails, closes, ends,
  fresh, settled_once, none_left_hanging,
}
use mokei.Rpc.Exchange.History
use mokei.Rpc.Connection.State.{Connection, Message, Routed, connect}
use mokei.Rpc.Connection.Receive.{
  finish_handler, resolve_terminal, write_terminal, reject_terminal, claim_as,
}
use mokei.Rpc.Connection.Send.{
  close, begin_dispose, send_request, send_stream_request, abort_request, time_out, fail_write,
  stream_closed,
}
use mokei.Rpc.Connection.Steps.{
  Step, reads, handler_ends, terminal_resolves, terminal_writes, terminal_rejects, sends,
  sends_stream, aborts_request, times_out, write_fails, stream_ends, disposes, step, run,
}
use mokei.Rpc.Connection.Steps.Effects.{
  outbound, Reaches, Reaches-none, Reaches-one, settled_by, Reaches-if, handle_message-Reaches,
  outbound-finish_as, outbound-claim_as, outbound-write_held, outbound-reject_as, give_up-Reaches,
  outbound-close, close-Reaches,
}

module _ (validate : Message → Bool) (routing : Message → Routed) where
  step-Reaches : (c : Connection) (s : Step) → Reaches c (step validate routing c s)
  unfolding step finish_handler resolve_terminal write_terminal reject_terminal begin_dispose
      send_request send_stream_request abort_request time_out fail_write stream_closed History.step
  step-Reaches c (reads m) = handle_message-Reaches validate routing c m
  step-Reaches c (handler_ends a h) = Reaches-none c _ (outbound-finish_as a h _ c)
  step-Reaches c (terminal_resolves id) = Reaches-none c _ (outbound-claim_as id _ c)
  step-Reaches c (terminal_writes id v) = Reaches-none c _ (outbound-write_held id v _ c)
  step-Reaches c (terminal_rejects id e) =
      let (d, won) = claim_as id (get c.held id) c in
      Reaches-none c _ (outbound-reject_as id e d won ∙ outbound-claim_as id _ c)
  step-Reaches c (sends aborted method params) =
      Reaches-if aborted c _ _ (Reaches-none c _ refl) (Reaches-one c _ opens_once refl)
  step-Reaches c (sends_stream aborted method params handlers) =
      Reaches-if aborted c _ _ (Reaches-none c _ refl)
        (Reaches-one c _ (opens_stream (record handlers { on_settle = true })) refl)
  step-Reaches c (aborts_request id) = give_up-Reaches c id _
  step-Reaches c (times_out id ms) = give_up-Reaches c id _
  step-Reaches c (write_fails id reason) =
      Reaches-if (has c.exchanges.exchanges id) c _ _ (settled_by c _ (cancels id reason) refl)
        (Reaches-none c _ refl)
  step-Reaches c (stream_ends id none) = settled_by c _ (History.closes id _) refl
  step-Reaches c (stream_ends id (some reason)) = settled_by c _ (History.closes id reason) refl
  step-Reaches c disposes = Reaches-none c _ refl
  step-Reaches c (Step.closes reason) = close-Reaches c reason

run-append :
    (s : Outbound) (es fs : List Event)
    → History.run s (es ++ fs) ≡ History.run (History.run s es) fs
unfolding History.run
run-append s [] fs = refl
run-append s (e ∷ es) fs = run-append (History.step s e) es fs

Reaches-trans : (c d e : Connection) → Reaches c d → Reaches d e → Reaches c e
Reaches-trans c d e u v = record {
  events = u.events ++ v.events;
  same =
      v.same
      ∙ ap (λ o. History.run o v.events) u.same
      ∙ sym (run-append (outbound c) u.events v.events);
}

module _ (validate : Message → Bool) (routing : Message → Routed) where
  run-Reaches : (c : Connection) (ss : List Step) → Reaches c (run validate routing c ss)
  unfolding run
  run-Reaches c [] = Reaches-none c c refl
  run-Reaches c (s ∷ ss) =
      Reaches-trans c (step validate routing c s) _ (step-Reaches validate routing c s)
        (run-Reaches (step validate routing c s) ss)

-- Whatever a new connection reads, sends and is told: each request that it sent is pending, once,
-- or its promise was settled, once, and no other promise was settled.
pub request_settled_once :
    (validate : Message → Bool) (routing : Message → Routed) (n m : ℕ) (ss : List Step) (a : ℕ)
    → let c = run validate routing (connect n m) ss in
      pending_as a c.exchanges.exchanges + settlements a c.exchanges.trace
      ≡ ite (dec_lt a c.next_id) 1 0
unfolding connect
request_settled_once validate routing n m ss a =
    let c : Connection = run validate routing (connect n m) ss in
    let r = run-Reaches validate routing (connect n m) ss in
    let balance : Outbound → Type 0 = λ o.
      pending_as a o.registry.exchanges + settlements a o.registry.trace
      ≡ ite (dec_lt a o.next_id) 1 0 in
    subst balance (sym r.same) (settled_once r.events a)

-- When a connection closes, whatever happened before, no request stays pending: the promise of each
-- request that was ever sent has been settled exactly once.
pub close_settles_requests :
    (validate : Message → Bool) (routing : Message → Routed) (n m : ℕ) (ss : List Step)
    (reason : Failure) (a : ℕ)
    → (run validate routing (connect n m) ss).closed ≡ false
    → let c = close (run validate routing (connect n m) ss) reason in
      (c.exchanges.exchanges ≡ [])
      × (settlements a c.exchanges.trace ≡ ite (dec_lt a c.next_id) 1 0)
unfolding connect
close_settles_requests validate routing n m ss reason a open_yet =
    let c : Connection = run validate routing (connect n m) ss in
    let r = run-Reaches validate routing (connect n m) ss in
    let ended : Outbound → Type 0 = λ o.
      ((end_all o.registry reason).exchanges ≡ [])
      × (settlements a (end_all o.registry reason).trace ≡ ite (dec_lt a o.next_id) 1 0) in
    let done : Outbound → Type 0 = λ o.
      (o.registry.exchanges ≡ [])
      × (settlements a o.registry.trace ≡ ite (dec_lt a o.next_id) 1 0) in
    subst done (sym (outbound-close c reason open_yet))
      (subst ended (sym r.same) (none_left_hanging r.events reason a))
