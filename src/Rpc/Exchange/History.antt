-- ===== src/Rpc/Exchange/History.antt =====
-- The registry over any history of a connection, which numbers its exchanges itself: every exchange
-- that is opened is settled once or still pending.
use mokei.Common.{
  ℕ, suc, ◌+◌, ◌≤◌, ◌≡◌, refl, ap, ◌∙◌, List, [], ◌∷◌, false, RequestId, integer, request_key,
  arith, ite, dec_lt,
}
use mokei.Common.Json.{pos}
use mokei.Common.OrderedMap.{get, has, set, HasDistinctKeys, has-set, set-HasDistinctKeys}
use mokei.Rpc.Message.{Response, from_response}
use mokei.Rpc.Exchange.{
  SettleReason, Failure, failed, StreamHandlers, PendingExchange, once, stream, StreamFrame,
  Registry, empty, controller_of, register_once, register_stream, route_response,
  route_stream_frame, cancel_exchange, fail, end_all, close, response_settles,
}
use mokei.Rpc.Exchange.Settling.{
  pending_as, settlements, total, Settles, Settles-refl, settle_found-Settles,
  route_frame_as-Settles, close_as-Settles, end_each_lem, pending_as-set,
}

-- What happens to the registry of a connection, which numbers its exchanges itself.
pub data Event : Type 0 where
  opens_once : Event
  opens_stream : StreamHandlers → Event
  responds : RequestId → Response → Event
  sends_frame : RequestId → StreamFrame → Event
  cancels : RequestId → Failure → Event
  fails : RequestId → Failure → Event
  closes : RequestId → Failure → Event
  ends : Failure → Event

-- The registry with `#requestID` of packages/context-rpc/src/rpc.ts.
pub record Outbound : Type 0 where
  pub registry : Registry
  pub next_id : ℕ

abbrev pub nth : ℕ → RequestId
nth n = integer (pos n)

settling : Registry → Event → Registry
settling r opens_once = r
settling r (opens_stream handlers) = r
settling r (responds id response) = route_response r id response
settling r (sends_frame id frame) = route_stream_frame r id frame
settling r (cancels id f) = cancel_exchange r id f
settling r (fails id f) = fail r id f
settling r (closes id f) = close r id f
settling r (ends f) = end_all r f

unfoldable pub step : Outbound → Event → Outbound
unfolding settling
step s opens_once = record {
  registry = register_once s.registry (nth s.next_id) s.next_id;
  next_id = suc s.next_id;
}
step s (opens_stream handlers) = record {
  registry = register_stream s.registry (nth s.next_id) s.next_id handlers;
  next_id = suc s.next_id;
}
step s e = record s { registry = settling s.registry e }

unfoldable pub run : Outbound → List Event → Outbound
run s [] = s
run s (e ∷ es) = run (step s e) es

abbrev pub fresh : Outbound
fresh = record { registry = empty; next_id = 0 }

settling-Settles : (r : Registry) (e : Event) → Settles r (settling r e)
unfolding settling route_response route_stream_frame cancel_exchange fail end_all close
settling-Settles r opens_once = Settles-refl r
settling-Settles r (opens_stream handlers) = Settles-refl r
settling-Settles r (responds id response) =
    settle_found-Settles r id (get r.exchanges id)
      (response_settles (from_response response) response.result) refl
settling-Settles r (sends_frame id frame) =
    route_frame_as-Settles r id (get r.exchanges id) frame refl
settling-Settles r (cancels id f) =
    settle_found-Settles r id (get r.exchanges id) (SettleReason.cancel, failed f) refl
settling-Settles r (fails id f) =
    settle_found-Settles r id (get r.exchanges id) (SettleReason.error, failed f) refl
settling-Settles r (closes id f) = close_as-Settles r id (get r.exchanges id) f refl
settling-Settles r (ends f) = (end_each_lem r.exchanges f r refl).0

record Counted (s : Outbound) : Type 0 where
  distinct : HasDistinctKeys s.registry.exchanges
  unused : (k : ℕ) → s.next_id ≤ k → has s.registry.exchanges (nth k) ≡ false
  balance : (c : ℕ) → total c s.registry ≡ ite (dec_lt c s.next_id) 1 0

open-Counted :
    (s : Outbound) (x : PendingExchange)
    → controller_of x ≡ s.next_id
    → Counted s
    → Counted (record {
      registry = record {
        exchanges = set s.registry.exchanges (nth s.next_id) x;
        trace = s.registry.trace;
      };
      next_id = suc s.next_id;
    })
open-Counted s x e v = record {
  distinct = set-HasDistinctKeys s.registry.exchanges (nth s.next_id) x v.distinct;
  unused =
      λ k h. ground (arith, has-set s.registry.exchanges (nth s.next_id) (nth k) x, v.unused k);
  balance = λ c. ground (
    arith,
    v.balance c,
    v.unused s.next_id,
    e,
    pending_as-set c s.registry.exchanges (nth s.next_id) x,
  );
}

settling-Counted :
    (s : Outbound) (e : Event) → Counted s → Counted (record s { registry = settling s.registry e })
settling-Counted s e v =
    let w = settling-Settles s.registry e in
    record {
      distinct = w.distinct v.distinct;
      unused = λ k h. w.absent (nth k) (v.unused k h);
      balance = λ c. w.totals c ∙ v.balance c;
    }

step-Counted : (s : Outbound) (e : Event) → Counted s → Counted (step s e)
unfolding step register_once register_stream
step-Counted s opens_once v = open-Counted s (once s.next_id) refl v
step-Counted s (opens_stream handlers) v = open-Counted s (stream s.next_id handlers) refl v
step-Counted s e v = settling-Counted s e v

run-Counted : (s : Outbound) (es : List Event) → Counted s → Counted (run s es)
unfolding run
run-Counted s [] v = v
run-Counted s (e ∷ es) v = run-Counted (step s e) es (step-Counted s e v)

fresh-Counted : Counted fresh
unfolding empty has pending_as settlements
fresh-Counted = record { distinct = tt; unused = λ k h. refl; balance = λ c. ground arith }

-- Over any history, each exchange that was opened is either pending, once, or its promise was
-- settled, once; and no other promise was.
pub settled_once :
    (es : List Event) (c : ℕ)
    → let s = run fresh es in
      pending_as c s.registry.exchanges + settlements c s.registry.trace
      ≡ ite (dec_lt c s.next_id) 1 0
settled_once es c = (run-Counted fresh es fresh-Counted).balance c

-- When a connection has ended all its exchanges, none is pending, and the promise of each exchange
-- that was ever opened was settled exactly once.
pub none_left_hanging :
    (es : List Event) (f : Failure) (c : ℕ)
    → let s = run fresh es in
      ((end_all s.registry f).exchanges ≡ [])
      × (settlements c (end_all s.registry f).trace ≡ ite (dec_lt c s.next_id) 1 0)
unfolding end_all pending_as
none_left_hanging es f c =
    let s : Outbound = run fresh es in
    let (v, done) = end_each_lem s.registry.exchanges f s.registry refl in
    (done, omega (arith, ap (pending_as c) done, v.totals c, settled_once es c))
