-- ===== src/Rpc/Scheduler/Accounting.antt =====
-- Every accepted request is at each moment in one place: it waits, or its handler is in flight, or
-- its promise has been settled, once.
use mokei.Common.{
  or_else, ℕ, suc, ◌+◌, ◌≡◌, refl, sym, ap, subst, ◌∙◌, inl, inr, Option, none, some, List, [], ◌∷◌,
  true, false, ltb, leb, length, RequestId, request_key, nat_key, arith, Bool-cases, is_some, ite,
  count, dec_lt, ℕ_discrete,
}
use mokei.Common.OrderedMap.{
  OrderedMap, get, has, set, delete, HasDistinctKeys, has-get, has-set, has-delete,
  set-HasDistinctKeys, delete-HasDistinctKeys,
}
use mokei.Rpc.Message.{Response}
use mokei.Rpc.Scheduler.{
  QueuedRequest, Scheduler, Effect, starts, aborts, answers, Call, schedules, cancels, aborts_all,
  detaches, completes_detached, settles, init, start, drain_loop, drain, schedule, cancel,
  abort_all, detach, complete_detached, settle, step, run, in_flight, enqueue, drop, drop_each,
  abort, abort_each, cancel_as, detach_as, settle_as,
}

-- 1 for a controller whose handler is in flight.
abbrev pub flying : ℕ → OrderedMap ℕ RequestId → ℕ
flying c m = elim (has m c) [ true ↦ 1 | false ↦ 0 ]

module _ {W : Type 0} where
  -- How many queued requests have the controller `c`.
  pub queued_as : ℕ → OrderedMap RequestId (QueuedRequest W) → ℕ
  queued_as c [] = 0
  queued_as c ((id, q) ∷ m) = ite (ℕ_discrete q.controller c) 1 0 + queued_as c m

  -- How often the promise of `c` was settled.
  unfoldable pub answered : ℕ → List (Effect W) → ℕ
  answered c [] = 0
  answered c (answers d r ∷ t) = ite (ℕ_discrete d c) 1 0 + answered c t
  answered c (starts d r ∷ t) = answered c t
  answered c (aborts d ∷ t) = answered c t

  -- The balance of a scheduler with the queue `q`, of whose handlers those in `owed` have ended and
  -- are about to be answered.
  pub record Balanced (owed : List ℕ) (q : OrderedMap RequestId (QueuedRequest W)) (s : Scheduler W)
      : Type 0 where
    pub flights_distinct : HasDistinctKeys s.flights
    pub balance :
        (c : ℕ)
        → queued_as c q + flying c s.flights + answered c s.trace + count c owed
          ≡ ite (dec_lt c s.next_controller) 1 0

  queued_as-set :
      (c : ℕ) (m : OrderedMap RequestId (QueuedRequest W)) (id : RequestId) (q : QueuedRequest W)
      → has m id ≡ false
      → queued_as c (set m id q) ≡ queued_as c m + ite (ℕ_discrete q.controller c) 1 0
  unfolding queued_as set has
  queued_as-set c [] id q h = omega arith
  queued_as-set c ((b, w) ∷ m) id q h = ground (arith, queued_as-set c m id q)

  pub queued_as-delete :
      (c : ℕ) (m : OrderedMap RequestId (QueuedRequest W)) (id : RequestId) (q : QueuedRequest W)
      → get m id ≡ some q
      → queued_as c m ≡ queued_as c (delete m id) + ite (ℕ_discrete q.controller c) 1 0
  unfolding queued_as get delete
  queued_as-delete c [] id q h = cc
  queued_as-delete c ((b, w) ∷ m) id q h = ground (arith, queued_as-delete c m id q)

  start-Balanced :
      (owed : List ℕ) (s : Scheduler W) (id : RequestId) (next : QueuedRequest W)
      (rest : OrderedMap RequestId (QueuedRequest W))
      → Balanced owed ((id, next) ∷ rest) s
      → Balanced owed rest (start (record s { queued = rest }) id next.controller next.run)
  unfolding start queued_as answered
  start-Balanced owed s id next rest v = record {
    flights_distinct = set-HasDistinctKeys s.flights next.controller id v.flights_distinct;
    balance = λ c.
        ground
          (arith, v.balance c, v.balance next.controller, has-set s.flights next.controller c id);
  }

  drain_loop-Balanced :
      (owed : List ℕ) (q : OrderedMap RequestId (QueuedRequest W)) (s : Scheduler W)
      → s.queued ≡ q
      → Balanced owed q s
      → Balanced owed (drain_loop q s).queued (drain_loop q s)
  unfolding drain_loop start
  drain_loop-Balanced owed [] s e v = subst (λ q. Balanced owed q s) (sym e) v
  drain_loop-Balanced owed ((id, next) ∷ rest) s e v =
      elim (Bool-cases (ltb (length s.running) s.max_concurrent)) [
        | inl room ↦ rw room (
            drain_loop-Balanced owed rest
              (start (record s { queued = rest }) id next.controller next.run) refl
              (start-Balanced owed s id next rest v))
        | inr full ↦ rw full (subst (λ q. Balanced owed q s) (sym e) v)
      ]

  drain-Balanced :
      (owed : List ℕ) (s : Scheduler W)
      → Balanced owed s.queued s
      → Balanced owed (drain s).queued (drain s)
  unfolding drain
  drain-Balanced owed s v = drain_loop-Balanced owed s.queued s refl v

  abbrev pub AtRest : Scheduler W → Type 0
  AtRest s = Balanced [] s.queued s

  start_new-AtRest :
      (s : Scheduler W) (id : RequestId) (r : W)
      → AtRest s
      → AtRest (start (record s { next_controller = suc s.next_controller }) id s.next_controller r)
  unfolding start answered
  start_new-AtRest s id r v = record {
    flights_distinct = set-HasDistinctKeys s.flights s.next_controller id v.flights_distinct;
    balance = λ c.
        ground (
          arith,
          v.balance c,
          v.balance s.next_controller,
          has-set s.flights s.next_controller c id,
        );
  }

  enqueue-AtRest :
      (s : Scheduler W) (id : RequestId) (r : W)
      → in_flight s id ≡ false
      → AtRest s
      → AtRest (enqueue s id r)
  unfolding enqueue in_flight
  enqueue-AtRest s id r new v = record {
    flights_distinct = v.flights_distinct;
    balance = λ c. ground (
      arith,
      v.balance c,
      queued_as-set c s.queued id (record { controller = s.next_controller; run = r }),
    );
  }

  drop-AtRest :
      (s : Scheduler W) (id : RequestId) (q : QueuedRequest W)
      → get s.queued id ≡ some q
      → AtRest s
      → AtRest (drop s id q.controller)
  unfolding drop answered
  drop-AtRest s id q e v = record {
    flights_distinct = v.flights_distinct;
    balance = λ c. ground (arith, v.balance c, queued_as-delete c s.queued id q e);
  }

  schedule-AtRest :
      (s : Scheduler W) (id : RequestId) (r : W) → AtRest s → AtRest (schedule s id r).0
  unfolding schedule
  schedule-AtRest s id r v = elim (Bool-cases (in_flight s id)) [
    | inl known ↦ rw known v
    | inr new ↦ elim (Bool-cases (ltb (length s.running) s.max_concurrent)) [
      | inl room ↦ rw (new, room) (start_new-AtRest s id r v)
      | inr busy ↦ elim (Bool-cases (leb s.max_queued (length s.queued))) [
        | inl full ↦ rw (new, busy, full) v
        | inr fits ↦ rw (new, busy, fits) (enqueue-AtRest s id r new v)
      ]
    ]
  ]

  abort-AtRest : (s : Scheduler W) (c : Option ℕ) → AtRest s → AtRest (abort s c)
  unfolding abort answered
  abort-AtRest s none v = v
  abort-AtRest s (some c) v = record { flights_distinct = v.flights_distinct; balance = v.balance }

  cancel_as-AtRest :
      (s : Scheduler W) (id : RequestId) (q : Option (QueuedRequest W))
      → get s.queued id ≡ q
      → AtRest s
      → AtRest (cancel_as s id q)
  unfolding cancel_as
  cancel_as-AtRest s id (some q) e v = drop-AtRest s id q e v
  cancel_as-AtRest s id none e v = abort-AtRest s (or_else (get s.running id) (get s.detached id)) v

  get_first :
      (id : RequestId) (q : QueuedRequest W) (m : OrderedMap RequestId (QueuedRequest W))
      → (get ((id, q) ∷ m) id ≡ some q) × (delete ((id, q) ∷ m) id ≡ m)
  unfolding get delete
  get_first id q m = ground arith

  drop_each-AtRest :
      (q : OrderedMap RequestId (QueuedRequest W)) (s : Scheduler W)
      → s.queued ≡ q
      → AtRest s
      → AtRest (drop_each q s)
  unfolding drop_each drop
  drop_each-AtRest [] s e v = v
  drop_each-AtRest ((id, next) ∷ rest) s e v =
      drop_each-AtRest rest (drop s id next.controller)
        (ap (λ m. delete m id) e ∙ (get_first id next rest).1)
        (drop-AtRest s id next (ap (λ m. get m id) e ∙ (get_first id next rest).0) v)

  abort_each-AtRest :
      (m : OrderedMap RequestId ℕ) (s : Scheduler W) → AtRest s → AtRest (abort_each m s)
  unfolding abort_each
  abort_each-AtRest [] s v = v
  abort_each-AtRest ((id, c) ∷ rest) s v =
      abort_each-AtRest rest (abort s (some c)) (abort-AtRest s (some c) v)

  abort_all-AtRest : (s : Scheduler W) → AtRest s → AtRest (abort_all s)
  unfolding abort_all
  abort_all-AtRest s v =
      abort_each-AtRest s.detached _
        (abort_each-AtRest s.running _ (drop_each-AtRest s.queued s refl v))

  detach_as-AtRest :
      (s : Scheduler W) (id : RequestId) (c : Option ℕ) → AtRest s → AtRest (detach_as s id c)
  unfolding detach_as
  detach_as-AtRest s id none v = v
  detach_as-AtRest s id (some c) v =
      drain-Balanced [] _ (record { flights_distinct = v.flights_distinct; balance = v.balance })

  settle_as-AtRest :
      (s : Scheduler W) (c : ℕ) (r : Option Response) (id : Option RequestId)
      → get s.flights c ≡ id
      → AtRest s
      → AtRest (settle_as s c r id)
  unfolding settle_as answered
  settle_as-AtRest s c r none e v = v
  settle_as-AtRest s c r (some id) e v =
      let landed : has s.flights c ≡ true = has-get s.flights c ∙ ap is_some e in
      let w =
        drain-Balanced (c ∷ [])
          (record s { running = delete s.running id; flights = delete s.flights c })
          (record {
            flights_distinct = delete-HasDistinctKeys s.flights c v.flights_distinct;
            balance = λ d.
                ground (arith, v.balance d, has-delete s.flights c d v.flights_distinct, landed);
          }) in
      record { flights_distinct = w.flights_distinct; balance = λ d. ground (arith, w.balance d) }

  step-AtRest : (s : Scheduler W) (c : Call W) → AtRest s → AtRest (step s c)
  unfolding step cancel detach settle complete_detached
  step-AtRest s (schedules id r) v = schedule-AtRest s id r v
  step-AtRest s (cancels id) v = cancel_as-AtRest s id (get s.queued id) refl v
  step-AtRest s aborts_all v = abort_all-AtRest s v
  step-AtRest s (detaches id) v = detach_as-AtRest s id (get s.running id) v
  step-AtRest s (completes_detached id) v = record {
    flights_distinct = v.flights_distinct;
    balance = v.balance;
  }
  step-AtRest s (settles c r) v = settle_as-AtRest s c r (get s.flights c) refl v

  pub run-AtRest : (s : Scheduler W) (cs : List (Call W)) → AtRest s → AtRest (run s cs)
  unfolding run
  run-AtRest s [] v = v
  run-AtRest s (c ∷ cs) v = run-AtRest (step s c) cs (step-AtRest s c v)

  pub init-AtRest : (n m : ℕ) → AtRest (init {W = W} n m)
  unfolding init has queued_as answered
  init-AtRest n m = record { flights_distinct = tt; balance = λ c. ground arith }

  -- After any history of a new scheduler, a controller that was given to a request is in one of
  -- three places, once: its request is queued, its handler is in flight, or its promise was settled.
  -- One that was given to none is in no place.
  pub answered_once :
      (n m : ℕ) (cs : List (Call W)) (c : ℕ)
      → let s = run (init n m) cs in
        queued_as c s.queued + flying c s.flights + answered c s.trace
        ≡ ite (dec_lt c s.next_controller) 1 0
  answered_once n m cs c = omega (arith, (run-AtRest (init n m) cs (init-AtRest n m)).balance c)
