-- ===== src/Rpc/Exchange/Routing.antt =====
-- What a routed response or frame does to the exchange that it names, and to no other.
use mokei.Common.{
  ℕ, ◌≡◌, refl, ap, ◌∙◌, Option, or_else, none, some, List, [], ◌∷◌, RequestId, request_key, arith,
  ite, ℕ_discrete,
}
use mokei.Common.Json.{Json}
use mokei.Common.OrderedMap.{get, delete}
use mokei.Rpc.Message.{
  RpcError, Response, from_response, to_response, plain_error, internal_error,
  from_response-to_response,
}
use mokei.Rpc.Exchange.{
  SettleReason, rpc, Verdict, ok, failed, PendingExchange, once, stream, Effect, resolves, rejects,
  reports_progress, asks_input, reports_settled, Registry, controller_of, settle, route_response,
  settle_found, response_settles,
}
use mokei.Rpc.Exchange.Settling.{exchanges-settle}

-- How the promise of `c` was settled, if it was: the earliest entry of the trace wins, since a
-- promise ignores what comes later.
unfoldable pub verdict : ℕ → List Effect → Option Verdict
verdict c [] = none
verdict c (resolves d v ∷ t) = or_else (verdict c t) (ite (ℕ_discrete d c) (some (ok v)) none)
verdict c (rejects d f ∷ t) = or_else (verdict c t) (ite (ℕ_discrete d c) (some (failed f)) none)
verdict c (reports_progress id v ∷ t) = verdict c t
verdict c (asks_input id token v ∷ t) = verdict c t
verdict c (reports_settled id reason f ∷ t) = verdict c t

verdict-settle :
    (r : Registry) (id : RequestId) (x : PendingExchange) (reason : SettleReason) (v : Verdict)
    → verdict (controller_of x) r.trace ≡ none
    → verdict (controller_of x) (settle r id x reason v).trace ≡ some v
unfolding verdict settle
verdict-settle r id (once d) reason (ok v) h = ground arith
verdict-settle r id (once d) reason (failed f) h = ground arith
verdict-settle r id (stream d handlers) reason (ok v) h = ground arith
verdict-settle r id (stream d handlers) reason (failed f) h = ground arith

-- The part that all branches share: the exchange is settled as the response says.
routed :
    (r : Registry) (id : RequestId) (x : PendingExchange) (response : Response)
    (reason : SettleReason) (v : Verdict)
    → get r.exchanges id ≡ some x
    → response_settles (from_response response) response.result ≡ (reason, v)
    → route_response r id response ≡ settle r id x reason v
unfolding route_response settle_found
routed r id x response reason v known says = rw (known, says, settle_found)

routed-verdict :
    (r : Registry) (id : RequestId) (x : PendingExchange) (response : Response)
    (reason : SettleReason) (v : Verdict)
    → get r.exchanges id ≡ some x
    → verdict (controller_of x) r.trace ≡ none
    → response_settles (from_response response) response.result ≡ (reason, v)
    → verdict (controller_of x) (route_response r id response).trace ≡ some v
routed-verdict r id x response reason v known open_yet says =
    rw (routed r id x response reason v known says) (verdict-settle r id x reason v open_yet)

-- A response to a pending exchange takes that exchange, and no other, out of the registry, whatever
-- the response carries. The exchange's promise, if it was not settled before, is settled: an error
-- that `RPCError.toResponse` wrote rejects it with that same error, a result resolves it with that
-- result, and a response that has neither rejects it with an internal error, "Malformed response".
pub route_response_lem :
    (r : Registry) (id : RequestId) (x : PendingExchange) (e : RpcError) (v : Json)
    → get r.exchanges id ≡ some x
    → verdict (controller_of x) r.trace ≡ none
    → let answer : Option Json → Option Json → Response =
        λ err res. record { id = id; error = err; result = res } in
      let after : Response → Option Verdict =
        λ response. verdict (controller_of x) (route_response r id response).trace in
      (after (to_response e id) ≡ some (failed (rpc e)))
      × (after (answer none (some v)) ≡ some (ok v))
      × (after (answer none none)
          ≡ some (failed (rpc (plain_error internal_error "Malformed response"))))
      × ((response : Response) → (route_response r id response).exchanges ≡ delete r.exchanges id)
unfolding from_response response_settles to_response
route_response_lem r id x e v known open_yet = (
  routed-verdict r id x (to_response e id) SettleReason.error (failed (rpc e)) known open_yet
      (ap (λ o. response_settles o none) (from_response-to_response e id).0),
  routed-verdict r id x _ SettleReason.result (ok v) known open_yet refl,
  routed-verdict r id x _ SettleReason.error _ known open_yet refl,
  λ response.
      let (reason, w) = response_settles (from_response response) response.result in
      ap (λ t. t.exchanges) (routed r id x response reason w known refl)
      ∙ exchanges-settle r id x reason w,
)
