-- ===== src/Rpc/Scheduler/Invariant.antt =====
-- What every method of the request scheduler keeps: the bounds on running and queued requests, ids
-- that are in one of the three maps at most, and no free slot while a request waits.
use mokei.Common.{
  or_else, ℕ, ◌≡◌, refl, ap, inl, inr, ◌∙◌, Option, none, some, List, [], ◌∷◌, true, ltb, leb,
  length, RequestId, request_key, nat_key, arith, Bool-cases, is_some,
}
use mokei.Common.OrderedMap.{
  OrderedMap, get, has, set, delete, has-get, has-set, has-delete, has-delete_le,
  set-HasDistinctKeys, delete-HasDistinctKeys, length-delete_le,
}
use mokei.Rpc.Message.{Response}
use mokei.Rpc.Scheduler.{
  QueuedRequest, Scheduler, Call, schedules, cancels, aborts_all, detaches, completes_detached,
  settles, init, schedule, cancel, abort_all, detach, settle, step, run, in_flight, drop, drop_each,
  abort, abort_each, cancel_as, detach_as, settle_as,
}
use mokei.Rpc.Scheduler.Valid.{
  Sound, IsValid, drain-IsValid, start-IsValid, enqueue-IsValid, drop-IsValid,
  complete_detached-IsValid, same_maps,
}

module _ {W : Type 0} where
  drop_each-IsValid :
      (q : OrderedMap RequestId (QueuedRequest W)) (s : Scheduler W)
      → IsValid s
      → IsValid (drop_each q s)
  unfolding drop_each
  drop_each-IsValid [] s v = v
  drop_each-IsValid ((id, next) ∷ rest) s v =
      drop_each-IsValid rest (drop s id next.controller) (drop-IsValid s id next.controller v)

  abort-IsValid : (s : Scheduler W) (c : Option ℕ) → IsValid s → IsValid (abort s c)
  unfolding abort
  abort-IsValid s none v = v
  abort-IsValid s (some c) v = same_maps s (abort s (some c)) (refl, refl, refl, refl, refl) v

  abort_each-IsValid :
      (m : OrderedMap RequestId ℕ) (s : Scheduler W) → IsValid s → IsValid (abort_each m s)
  unfolding abort_each
  abort_each-IsValid [] s v = v
  abort_each-IsValid ((id, c) ∷ rest) s v =
      abort_each-IsValid rest (abort s (some c)) (abort-IsValid s (some c) v)

  -- A slot is given back: what is left is ready for `drain`.
  release-Sound :
      (s : Scheduler W) (id : RequestId) (f : OrderedMap ℕ RequestId)
      → IsValid s
      → Sound s.queued (record s { running = delete s.running id; flights = f })
  release-Sound s id f v = record {
    queued_distinct = v.sound.queued_distinct;
    running_distinct = delete-HasDistinctKeys s.running id v.sound.running_distinct;
    detached_distinct = v.sound.detached_distinct;
    within = omega (arith, length-delete_le s.running id, v.sound.within);
    waiting = v.sound.waiting;
    queued_apart = λ a h. ground (arith, v.sound.queued_apart a, has-delete_le s.running id a);
    running_apart = λ a h. ground (arith, v.sound.running_apart a, has-delete_le s.running id a);
  }

  detach-Sound :
      (s : Scheduler W) (id : RequestId) (c : ℕ)
      → IsValid s
      → has s.running id ≡ true
      → Sound s.queued (record s { running = delete s.running id; detached = set s.detached id c })
  detach-Sound s id c v held = record {
    queued_distinct = v.sound.queued_distinct;
    running_distinct = delete-HasDistinctKeys s.running id v.sound.running_distinct;
    detached_distinct = set-HasDistinctKeys s.detached id c v.sound.detached_distinct;
    within = omega (arith, length-delete_le s.running id, v.sound.within);
    waiting = v.sound.waiting;
    queued_apart = λ a h.
        ground
          (arith, v.sound.queued_apart a, has-delete_le s.running id a, has-set s.detached id a c);
    running_apart = λ a h. ground (
      arith,
      v.sound.running_apart a,
      has-delete s.running id a v.sound.running_distinct,
      has-set s.detached id a c,
    );
  }

  schedule-IsValid :
      (s : Scheduler W) (id : RequestId) (r : W) → IsValid s → IsValid (schedule s id r).0
  unfolding schedule
  schedule-IsValid s id r v = elim (Bool-cases (in_flight s id)) [
    | inl known ↦ rw known v
    | inr new ↦ elim (Bool-cases (ltb (length s.running) s.max_concurrent)) [
      | inl room ↦ rw (new, room) (start-IsValid s id r v new (ground arith))
      | inr busy ↦ elim (Bool-cases (leb s.max_queued (length s.queued))) [
        | inl full ↦ rw (new, busy, full) v
        | inr fits ↦
            rw (new, busy, fits) (enqueue-IsValid s id r v new (ground arith) (ground arith))
      ]
    ]
  ]

  cancel_as-IsValid :
      (s : Scheduler W) (id : RequestId) (q : Option (QueuedRequest W))
      → IsValid s
      → IsValid (cancel_as s id q)
  unfolding cancel_as
  cancel_as-IsValid s id (some q) v = drop-IsValid s id q.controller v
  cancel_as-IsValid s id none v = abort-IsValid s (or_else (get s.running id) (get s.detached id)) v

  abort_all-IsValid : (s : Scheduler W) → IsValid s → IsValid (abort_all s)
  unfolding abort_all
  abort_all-IsValid s v =
      abort_each-IsValid s.detached _
        (abort_each-IsValid s.running _ (drop_each-IsValid s.queued s v))

  detach_as-IsValid :
      (s : Scheduler W) (id : RequestId) (c : Option ℕ)
      → get s.running id ≡ c
      → IsValid s
      → IsValid (detach_as s id c)
  unfolding detach_as
  detach_as-IsValid s id none e v = v
  detach_as-IsValid s id (some c) e v =
      drain-IsValid _ (detach-Sound s id c v (has-get s.running id ∙ ap is_some e))

  settle_as-IsValid :
      (s : Scheduler W) (c : ℕ) (r : Option Response) (id : Option RequestId)
      → IsValid s
      → IsValid (settle_as s c r id)
  unfolding settle_as
  settle_as-IsValid s c r none v = v
  settle_as-IsValid s c r (some id) v =
      same_maps _ _ (refl, refl, refl, refl, refl)
        (drain-IsValid _ (release-Sound s id (delete s.flights c) v))

  -- Every call keeps the invariant: at most `max_concurrent` requests run and at most `max_queued`
  -- wait, no id is in two of the three maps or twice in one, and a request waits only while every
  -- slot is taken.
  pub step-IsValid : (s : Scheduler W) (c : Call W) → IsValid s → IsValid (step s c)
  unfolding step cancel detach settle
  step-IsValid s (schedules id r) v = schedule-IsValid s id r v
  step-IsValid s (cancels id) v = cancel_as-IsValid s id (get s.queued id) v
  step-IsValid s aborts_all v = abort_all-IsValid s v
  step-IsValid s (detaches id) v = detach_as-IsValid s id (get s.running id) refl v
  step-IsValid s (completes_detached id) v = complete_detached-IsValid s id v
  step-IsValid s (settles c r) v = settle_as-IsValid s c r (get s.flights c) v

  pub init-IsValid : (n m : ℕ) → IsValid (init {W = W} n m)
  unfolding init has
  init-IsValid n m = record {
    sound = record {
      queued_distinct = tt;
      running_distinct = tt;
      detached_distinct = tt;
      within = omega arith;
      waiting = omega arith;
      queued_apart = λ a h. cc;
      running_apart = λ a h. cc;
    };
    no_idle = inl refl;
  }

  pub run-IsValid : (s : Scheduler W) (cs : List (Call W)) → IsValid s → IsValid (run s cs)
  unfolding run
  run-IsValid s [] v = v
  run-IsValid s (c ∷ cs) v = run-IsValid (step s c) cs (step-IsValid s c v)

  -- So it holds after any history of a new scheduler.
  pub run-init-IsValid : (n m : ℕ) (cs : List (Call W)) → IsValid (run (init n m) cs)
  run-init-IsValid n m cs = run-IsValid (init n m) cs (init-IsValid n m)
