-- ===== src/Rpc/Scheduler/Fairness.antt =====
-- Handlers start in the order in which their requests were accepted.
use mokei.Common.{
  or_else, ℕ, suc, ◌≤◌, ◌<◌, ◌≡◌, refl, sym, subst, inl, inr, Option, none, some, List, [], ◌∷◌,
  false, ltb, leb, length, RequestId, request_key, nat_key, arith, Bool-cases,
}
use mokei.Common.OrderedMap.{OrderedMap, get, has, set, delete}
use mokei.Rpc.Message.{Response}
use mokei.Rpc.Scheduler.{
  QueuedRequest, Scheduler, Effect, starts, aborts, answers, Call, schedules, cancels, aborts_all,
  detaches, completes_detached, settles, init, start, drain_loop, drain, schedule, cancel,
  abort_all, detach, complete_detached, settle, step, run, in_flight, enqueue, drop, drop_each,
  abort, abort_each, cancel_as, detach_as, settle_as,
}
use mokei.Rpc.Scheduler.Invariant.{step-IsValid, init-IsValid}
use mokei.Rpc.Scheduler.Valid.{IsValid}

-- The numbers fall along the list and stay under the bound.
abbrev pub Below : ℕ → List ℕ → Type 0
Below n [] = Unit {0}
Below n (c ∷ cs) = (c < n) × Below c cs

Below-mono : (m n : ℕ) (cs : List ℕ) → m ≤ n → Below m cs → Below n cs
Below-mono m n [] h b = tt
Below-mono m n (c ∷ cs) h b = (omega arith, b.1)

module _ {W : Type 0} where
  -- The controllers of the handlers that were started, the last one first.
  unfoldable pub started : List (Effect W) → List ℕ
  started [] = []
  started (starts c r ∷ t) = c ∷ started t
  started (aborts c ∷ t) = started t
  started (answers c r ∷ t) = started t

  -- The controller of the request that waits longest, or the next one.
  first : OrderedMap RequestId (QueuedRequest W) → ℕ → ℕ
  first [] n = n
  first ((id, q) ∷ m) n = q.controller

  abbrev Ascends : ℕ → OrderedMap RequestId (QueuedRequest W) → Type 0
  Ascends n [] = Unit {0}
  Ascends n ((id, q) ∷ m) = (q.controller < first m n) × Ascends n m

  record Ordered (q : OrderedMap RequestId (QueuedRequest W)) (s : Scheduler W) : Type 0 where
    waiting : Ascends s.next_controller q
    begun : Below (first q s.next_controller) (started s.trace)

  first-le : (q : OrderedMap RequestId (QueuedRequest W)) (n : ℕ) → Ascends n q → first q n ≤ n
  unfolding first
  first-le [] n a = omega arith
  first-le ((id, q) ∷ m) n a = omega (arith, first-le m n a.1)

  start-Ordered :
      (s : Scheduler W) (id : RequestId) (next : QueuedRequest W)
      (rest : OrderedMap RequestId (QueuedRequest W))
      → Ordered ((id, next) ∷ rest) s
      → Ordered rest (start (record s { queued = rest }) id next.controller next.run)
  unfolding start started first
  start-Ordered s id next rest v = record { waiting = v.waiting.1; begun = (v.waiting.0, v.begun) }

  drain_loop-Ordered :
      (q : OrderedMap RequestId (QueuedRequest W)) (s : Scheduler W)
      → s.queued ≡ q
      → Ordered q s
      → Ordered (drain_loop q s).queued (drain_loop q s)
  unfolding drain_loop start
  drain_loop-Ordered [] s e v = subst (λ q. Ordered q s) (sym e) v
  drain_loop-Ordered ((id, next) ∷ rest) s e v =
      elim (Bool-cases (ltb (length s.running) s.max_concurrent)) [
        | inl room ↦ rw room (
            drain_loop-Ordered rest (start (record s { queued = rest }) id next.controller next.run)
              refl (start-Ordered s id next rest v))
        | inr full ↦ rw full (subst (λ q. Ordered q s) (sym e) v)
      ]

  abbrev InOrder : Scheduler W → Type 0
  InOrder s = Ordered s.queued s

  drain-InOrder : (s : Scheduler W) → InOrder s → InOrder (drain s)
  unfolding drain
  drain-InOrder s v = drain_loop-Ordered s.queued s refl v

  start_new-InOrder :
      (s : Scheduler W) (id : RequestId) (r : W)
      → s.queued ≡ []
      → InOrder s
      → InOrder
          (start (record s { next_controller = suc s.next_controller }) id s.next_controller r)
  unfolding start started first
  start_new-InOrder s id r e v = record {
    waiting = rw e tt;
    begun = rw e (omega arith, rw e at v.begun);
  }

  Ascends-set :
      (n : ℕ) (m : OrderedMap RequestId (QueuedRequest W)) (id : RequestId) (r : W)
      → has m id ≡ false
      → Ascends n m
      → let next : QueuedRequest W = record { controller = n; run = r } in
        Ascends (suc n) (set m id next) × (first (set m id next) (suc n) ≡ first m n)
  unfolding set has first
  Ascends-set n [] id r h a = ((omega arith, tt), refl)
  Ascends-set n ((b, q) ∷ m) id r h a = ground (arith, Ascends-set n m id r)

  enqueue-InOrder :
      (s : Scheduler W) (id : RequestId) (r : W)
      → in_flight s id ≡ false
      → InOrder s
      → InOrder (enqueue s id r)
  unfolding enqueue in_flight
  enqueue-InOrder s id r new v =
      let (w, e) = Ascends-set s.next_controller s.queued id r (ground arith) v.waiting in
      record { waiting = w; begun = subst (λ n. Below n (started s.trace)) (sym e) v.begun }

  Ascends-delete :
      (n : ℕ) (m : OrderedMap RequestId (QueuedRequest W)) (id : RequestId)
      → Ascends n m
      → Ascends n (delete m id) × (first m n ≤ first (delete m id) n)
  unfolding delete first
  Ascends-delete n [] id a = (tt, omega arith)
  Ascends-delete n ((b, q) ∷ m) id a = ground (arith, Ascends-delete n m id)

  drop-InOrder : (s : Scheduler W) (id : RequestId) (c : ℕ) → InOrder s → InOrder (drop s id c)
  unfolding drop started
  drop-InOrder s id c v =
      let (w, le) = Ascends-delete s.next_controller s.queued id v.waiting in
      record { waiting = w; begun = Below-mono _ _ (started s.trace) le v.begun }

  schedule-InOrder :
      (s : Scheduler W) (id : RequestId) (r : W)
      → IsValid s
      → InOrder s
      → InOrder (schedule s id r).0
  unfolding schedule
  schedule-InOrder s id r k v = elim (Bool-cases (in_flight s id)) [
    | inl known ↦ rw known v
    | inr new ↦ elim (Bool-cases (ltb (length s.running) s.max_concurrent)) [
      | inl room ↦ rw (new, room) (start_new-InOrder s id r (ground (arith, k.no_idle)) v)
      | inr busy ↦ elim (Bool-cases (leb s.max_queued (length s.queued))) [
        | inl full ↦ rw (new, busy, full) v
        | inr fits ↦ rw (new, busy, fits) (enqueue-InOrder s id r new v)
      ]
    ]
  ]

  abort-InOrder : (s : Scheduler W) (c : Option ℕ) → InOrder s → InOrder (abort s c)
  unfolding abort started
  abort-InOrder s none v = v
  abort-InOrder s (some c) v = record { waiting = v.waiting; begun = v.begun }

  cancel_as-InOrder :
      (s : Scheduler W) (id : RequestId) (q : Option (QueuedRequest W))
      → InOrder s
      → InOrder (cancel_as s id q)
  unfolding cancel_as
  cancel_as-InOrder s id (some q) v = drop-InOrder s id q.controller v
  cancel_as-InOrder s id none v = abort-InOrder s (or_else (get s.running id) (get s.detached id)) v

  drop_each-InOrder :
      (q : OrderedMap RequestId (QueuedRequest W)) (s : Scheduler W)
      → InOrder s
      → InOrder (drop_each q s)
  unfolding drop_each
  drop_each-InOrder [] s v = v
  drop_each-InOrder ((id, next) ∷ rest) s v =
      drop_each-InOrder rest (drop s id next.controller) (drop-InOrder s id next.controller v)

  abort_each-InOrder :
      (m : OrderedMap RequestId ℕ) (s : Scheduler W) → InOrder s → InOrder (abort_each m s)
  unfolding abort_each
  abort_each-InOrder [] s v = v
  abort_each-InOrder ((id, c) ∷ rest) s v =
      abort_each-InOrder rest (abort s (some c)) (abort-InOrder s (some c) v)

  abort_all-InOrder : (s : Scheduler W) → InOrder s → InOrder (abort_all s)
  unfolding abort_all
  abort_all-InOrder s v =
      abort_each-InOrder s.detached _
        (abort_each-InOrder s.running _ (drop_each-InOrder s.queued s v))

  detach_as-InOrder :
      (s : Scheduler W) (id : RequestId) (c : Option ℕ) → InOrder s → InOrder (detach_as s id c)
  unfolding detach_as
  detach_as-InOrder s id none v = v
  detach_as-InOrder s id (some c) v =
      drain-InOrder _ (record { waiting = v.waiting; begun = v.begun })

  settle_as-InOrder :
      (s : Scheduler W) (c : ℕ) (r : Option Response) (id : Option RequestId)
      → InOrder s
      → InOrder (settle_as s c r id)
  unfolding settle_as started
  settle_as-InOrder s c r none v = v
  settle_as-InOrder s c r (some id) v =
      let w =
        drain-InOrder (record s { running = delete s.running id; flights = delete s.flights c })
          (record { waiting = v.waiting; begun = v.begun }) in
      record { waiting = w.waiting; begun = w.begun }

  step-InOrder : (s : Scheduler W) (c : Call W) → IsValid s → InOrder s → InOrder (step s c)
  unfolding step cancel detach settle complete_detached
  step-InOrder s (schedules id r) k v = schedule-InOrder s id r k v
  step-InOrder s (cancels id) k v = cancel_as-InOrder s id (get s.queued id) v
  step-InOrder s aborts_all k v = abort_all-InOrder s v
  step-InOrder s (detaches id) k v = detach_as-InOrder s id (get s.running id) v
  step-InOrder s (completes_detached id) k v = record { waiting = v.waiting; begun = v.begun }
  step-InOrder s (settles c r) k v = settle_as-InOrder s c r (get s.flights c) v

  run-InOrder : (s : Scheduler W) (cs : List (Call W)) → IsValid s → InOrder s → InOrder (run s cs)
  unfolding run
  run-InOrder s [] k v = v
  run-InOrder s (c ∷ cs) k v = run-InOrder (step s c) cs (step-IsValid s c k) (step-InOrder s c k v)

  init-InOrder : (n m : ℕ) → InOrder (init {W = W} n m)
  unfolding init started
  init-InOrder n m = record { waiting = tt; begun = tt }

  -- After any history of a new scheduler, the handlers that were started stand in the trace in the
  -- order in which their requests were accepted, and none of them twice.
  pub started_in_order :
      (n m : ℕ) (cs : List (Call W))
      → let s = run (init n m) cs in Below s.next_controller (started s.trace)
  started_in_order n m cs =
      let s : Scheduler W = run (init n m) cs in
      let v = run-InOrder (init n m) cs (init-IsValid n m) (init-InOrder n m) in
      Below-mono _ _ (started s.trace) (first-le s.queued s.next_controller v.waiting) v.begun
