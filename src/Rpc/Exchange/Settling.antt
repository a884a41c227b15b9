-- ===== src/Rpc/Exchange/Settling.antt =====
-- Pending exchanges and settled promises, counted over the operations of the registry. The laws
-- of whole histories are in History.antt.
use mokei.Common.{
  ℕ, ◌+◌, ◌≡◌, refl, ap, ◌∙◌, Option, none, some, List, [], ◌∷◌, Bool, true, false, if◌then◌else◌,
  RequestId, request_key, arith, ite, ℕ_discrete,
}
use mokei.Common.OrderedMap.{
  OrderedMap, get, has, set, delete, HasDistinctKeys, has-delete_le, delete-HasDistinctKeys,
}
use mokei.Rpc.Exchange.{
  SettleReason, Failure, Verdict, ok, failed, StreamHandlers, PendingExchange, once, stream,
  StreamFrame, progress, input_request, Effect, resolves, rejects, reports_progress, asks_input,
  reports_settled, Registry, controller_of, settle, settle_found, route_frame, route_frame_as,
  end_each, close_as, emit,
}

-- How many pending exchanges have the controller `c`.
unfoldable pub pending_as : ℕ → OrderedMap RequestId PendingExchange → ℕ
pending_as c [] = 0
pending_as c ((id, x) ∷ m) = ite (ℕ_discrete (controller_of x) c) 1 0 + pending_as c m

-- How often the promise of `c` was resolved or rejected.
unfoldable pub settlements : ℕ → List Effect → ℕ
settlements c [] = 0
settlements c (resolves d v ∷ t) = ite (ℕ_discrete d c) 1 0 + settlements c t
settlements c (rejects d f ∷ t) = ite (ℕ_discrete d c) 1 0 + settlements c t
settlements c (reports_progress id v ∷ t) = settlements c t
settlements c (asks_input id token v ∷ t) = settlements c t
settlements c (reports_settled id reason f ∷ t) = settlements c t

abbrev pub total : ℕ → Registry → ℕ
total c r = pending_as c r.exchanges + settlements c r.trace

pending_as-delete :
    (c : ℕ) (m : OrderedMap RequestId PendingExchange) (id : RequestId) (x : PendingExchange)
    → get m id ≡ some x
    → pending_as c m ≡ pending_as c (delete m id) + ite (ℕ_discrete (controller_of x) c) 1 0
unfolding pending_as get delete
pending_as-delete c [] id x h = cc
pending_as-delete c ((b, w) ∷ m) id x h = ground (arith, pending_as-delete c m id x)

pub pending_as-set :
    (c : ℕ) (m : OrderedMap RequestId PendingExchange) (id : RequestId) (x : PendingExchange)
    → has m id ≡ false
    → pending_as c (set m id x) ≡ pending_as c m + ite (ℕ_discrete (controller_of x) c) 1 0
unfolding pending_as has set
pending_as-set c [] id x h = omega arith
pending_as-set c ((b, w) ∷ m) id x h = ground (arith, pending_as-set c m id x)

-- The maps and the counts after `#settle`.
pub exchanges-settle :
    (r : Registry) (id : RequestId) (x : PendingExchange) (reason : SettleReason) (v : Verdict)
    → (settle r id x reason v).exchanges ≡ delete r.exchanges id
unfolding settle
exchanges-settle r id (once c) reason v = refl
exchanges-settle r id (stream c handlers) reason v = ground arith

settlements-settle :
    (c : ℕ) (r : Registry) (id : RequestId) (x : PendingExchange) (reason : SettleReason)
    (v : Verdict)
    → settlements c (settle r id x reason v).trace
      ≡ settlements c r.trace + ite (ℕ_discrete (controller_of x) c) 1 0
unfolding settle settlements
settlements-settle c r id (once d) reason (ok v) = omega arith
settlements-settle c r id (once d) reason (failed f) = omega arith
settlements-settle c r id (stream d handlers) reason (ok v) = ground arith
settlements-settle c r id (stream d handlers) reason (failed f) = ground arith

total-settle :
    (c : ℕ) (r : Registry) (id : RequestId) (x : PendingExchange) (reason : SettleReason)
    (v : Verdict)
    → get r.exchanges id ≡ some x
    → total c (settle r id x reason v) ≡ total c r
total-settle c r id x reason v e =
    rw (exchanges-settle r id x reason v)
      (omega (arith, settlements-settle c r id x reason v, pending_as-delete c r.exchanges id x e))

-- `t` is `r` with some exchanges settled.
pub record Settles (r t : Registry) : Type 0 where
  pub distinct : HasDistinctKeys r.exchanges → HasDistinctKeys t.exchanges
  pub absent : (a : RequestId) → has r.exchanges a ≡ false → has t.exchanges a ≡ false
  pub totals : (c : ℕ) → total c t ≡ total c r

pub Settles-refl : (r : Registry) → Settles r r
Settles-refl r = record { distinct = λ d. d; absent = λ a h. h; totals = λ c. refl }

Settles-trans : (r t u : Registry) → Settles r t → Settles t u → Settles r u
Settles-trans r t u v w = record {
  distinct = λ d. w.distinct (v.distinct d);
  absent = λ a h. w.absent a (v.absent a h);
  totals = λ c. w.totals c ∙ v.totals c;
}

settle-Settles :
    (r : Registry) (id : RequestId) (x : PendingExchange) (reason : SettleReason) (v : Verdict)
    → get r.exchanges id ≡ some x
    → Settles r (settle r id x reason v)
settle-Settles r id x reason v e =
    let m = exchanges-settle r id x reason v in
    record {
      distinct = λ d. rw m (delete-HasDistinctKeys r.exchanges id d);
      absent = λ a h. rw m (has-delete_le r.exchanges id a h);
      totals = λ c. total-settle c r id x reason v e;
    }

pub settle_found-Settles :
    (r : Registry) (id : RequestId) (x : Option PendingExchange) (how : SettleReason × Verdict)
    → get r.exchanges id ≡ x
    → Settles r (settle_found r id x how)
unfolding settle_found
settle_found-Settles r id none how e = Settles-refl r
settle_found-Settles r id (some x) (reason, v) e = settle-Settles r id x reason v e

report-Settles :
    (r : Registry) (e : Effect)
    → ((c : ℕ) → settlements c (e ∷ r.trace) ≡ settlements c r.trace)
    → (b : Bool) → Settles r (if b then emit e r else r)
unfolding emit
report-Settles r e h true = record {
  distinct = λ d. d;
  absent = λ a k. k;
  totals = λ c. omega (arith, h c);
}
report-Settles r e h false = Settles-refl r

route_frame-Settles :
    (r : Registry) (id : RequestId) (x : PendingExchange) (handlers : StreamHandlers)
    (frame : StreamFrame)
    → get r.exchanges id ≡ some x
    → Settles r (route_frame r id x handlers frame)
unfolding route_frame settlements
route_frame-Settles r id x handlers (progress v) e =
    report-Settles r (reports_progress id v) (λ c. refl) handlers.on_progress
route_frame-Settles r id x handlers (input_request token v) e =
    report-Settles r (asks_input id token v) (λ c. refl) handlers.on_input_request
route_frame-Settles r id x handlers (StreamFrame.result v) e =
    settle-Settles r id x SettleReason.result (ok v) e
route_frame-Settles r id x handlers (StreamFrame.error f) e =
    settle-Settles r id x SettleReason.error (failed f) e

pub route_frame_as-Settles :
    (r : Registry) (id : RequestId) (x : Option PendingExchange) (frame : StreamFrame)
    → get r.exchanges id ≡ x
    → Settles r (route_frame_as r id x frame)
unfolding route_frame_as
route_frame_as-Settles r id none frame e = Settles-refl r
route_frame_as-Settles r id (some (once c)) frame e = Settles-refl r
route_frame_as-Settles r id (some (stream c handlers)) frame e =
    route_frame-Settles r id (stream c handlers) handlers frame e

pub close_as-Settles :
    (r : Registry) (id : RequestId) (x : Option PendingExchange) (f : Failure)
    → get r.exchanges id ≡ x
    → Settles r (close_as r id x f)
unfolding close_as
close_as-Settles r id none f e = Settles-refl r
close_as-Settles r id (some (once c)) f e = Settles-refl r
close_as-Settles r id (some (stream c handlers)) f e =
    settle-Settles r id (stream c handlers) SettleReason.closed (failed f) e

first_entry :
    (id : RequestId) (x : PendingExchange) (m : OrderedMap RequestId PendingExchange)
    → (get ((id, x) ∷ m) id ≡ some x) × (delete ((id, x) ∷ m) id ≡ m)
unfolding get delete
first_entry id x m = ground arith

-- `endAll` works through the entries, each of which is the first one left.
pub end_each_lem :
    (m : OrderedMap RequestId PendingExchange) (f : Failure) (r : Registry)
    → r.exchanges ≡ m
    → Settles r (end_each m f r) × ((end_each m f r).exchanges ≡ [])
unfolding end_each
end_each_lem [] f r e = (Settles-refl r, e)
end_each_lem ((id, x) ∷ rest) f r e =
    let t = settle r id x SettleReason.closed (failed f) in
    let (v, done) = end_each_lem rest f t (
      exchanges-settle r id x SettleReason.closed (failed f)
      ∙ ap (λ m. delete m id) e
      ∙ (first_entry id x rest).1) in
    (
      Settles-trans r t _
          (settle-Settles r id x SettleReason.closed (failed f)
            (ap (λ m. get m id) e ∙ (first_entry id x rest).0))
          v,
      done,
    )
