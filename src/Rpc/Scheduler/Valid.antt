-- ===== src/Rpc/Scheduler/Valid.antt =====
-- When a request scheduler is in order, and that its queue and its free slots are kept so.
use mokei.Common.{
  ℕ, suc, ◌≤◌, ◌<◌, ◌≡◌, refl, sym, ap, subst, ◌⊎◌, inl, inr, [], ◌∷◌, true, false, ltb, length,
  RequestId, request_key, nat_key, arith, Bool-cases,
}
use mokei.Common.OrderedMap.{
  OrderedMap, has, delete, HasDistinctKeys, has-set, has-delete_le, set-HasDistinctKeys,
  delete-HasDistinctKeys, length-set_of_new, length-delete_le,
}
use mokei.Rpc.Scheduler.{
  QueuedRequest, Scheduler, start, drain_loop, drain, complete_detached, in_flight, enqueue, drop,
}

module _ {W : Type 0} where
  -- The invariant without its last part, for a scheduler whose queue is `q`.
  pub record Sound (q : OrderedMap RequestId (QueuedRequest W)) (s : Scheduler W) : Type 0 where
    pub queued_distinct : HasDistinctKeys q
    pub running_distinct : HasDistinctKeys s.running
    pub detached_distinct : HasDistinctKeys s.detached
    pub within : length s.running ≤ s.max_concurrent
    pub waiting : length q ≤ s.max_queued
    pub queued_apart :
        (a : RequestId) → has q a ≡ true → (has s.running a ≡ false) × (has s.detached a ≡ false)
    pub running_apart : (a : RequestId) → has s.running a ≡ true → has s.detached a ≡ false

  pub record IsValid (s : Scheduler W) : Type 0 where
    pub sound : Sound s.queued s
    pub no_idle : (s.queued ≡ []) ⊎ (s.max_concurrent ≤ length s.running)

  start-Sound :
      (s : Scheduler W) (id : RequestId) (next : QueuedRequest W)
      (rest : OrderedMap RequestId (QueuedRequest W))
      → Sound ((id, next) ∷ rest) s
      → length s.running < s.max_concurrent
      → Sound rest (start (record s { queued = rest }) id next.controller next.run)
  unfolding start has
  start-Sound s id next rest v room = record {
    queued_distinct = v.queued_distinct.1;
    running_distinct = set-HasDistinctKeys s.running id next.controller v.running_distinct;
    detached_distinct = v.detached_distinct;
    within = ground (arith, length-set_of_new s.running id next.controller, v.queued_apart id);
    waiting = ground (arith, v.waiting);
    queued_apart = λ a h.
        ground
          (arith, has-set s.running id a next.controller, v.queued_apart a, v.queued_distinct.0);
    running_apart = λ a h.
        ground
          (arith, has-set s.running id a next.controller, v.queued_apart id, v.running_apart a);
  }

  queued-start :
      (s : Scheduler W) (id : RequestId) (controller : ℕ) (r : W)
      → (start s id controller r).queued ≡ s.queued
  unfolding start
  queued-start s id controller r = refl

  drain_loop-IsValid :
      (q : OrderedMap RequestId (QueuedRequest W)) (s : Scheduler W)
      → s.queued ≡ q
      → Sound q s
      → IsValid (drain_loop q s)
  unfolding drain_loop
  drain_loop-IsValid [] s e v = record { sound = subst (λ q. Sound q s) (sym e) v; no_idle = inl e }
  drain_loop-IsValid ((id, next) ∷ rest) s e v =
      elim (Bool-cases (ltb (length s.running) s.max_concurrent)) [
        | inl room ↦ rw room (
            drain_loop-IsValid rest (start (record s { queued = rest }) id next.controller next.run)
              (queued-start (record s { queued = rest }) id next.controller next.run)
              (start-Sound s id next rest v (ground arith)))
        | inr full ↦
            rw full
              (record { sound = subst (λ q. Sound q s) (sym e) v; no_idle = inr (ground arith) })
      ]

  pub drain-IsValid : (s : Scheduler W) → Sound s.queued s → IsValid (drain s)
  unfolding drain
  drain-IsValid s v = drain_loop-IsValid s.queued s refl v

  -- A request that finds a free slot finds an empty queue too.
  pub start-IsValid :
      (s : Scheduler W) (id : RequestId) (r : W)
      → IsValid s
      → in_flight s id ≡ false
      → length s.running < s.max_concurrent
      → IsValid
          (start (record s { next_controller = suc s.next_controller }) id s.next_controller r)
  unfolding start in_flight has
  start-IsValid s id r v new room =
      let none_waits : s.queued ≡ [] = ground (arith, v.no_idle) in
      record {
        sound = record {
          queued_distinct = v.sound.queued_distinct;
          running_distinct =
              set-HasDistinctKeys s.running id s.next_controller v.sound.running_distinct;
          detached_distinct = v.sound.detached_distinct;
          within = ground (arith, length-set_of_new s.running id s.next_controller);
          waiting = v.sound.waiting;
          queued_apart = λ a h. ground (arith, none_waits);
          running_apart = λ a h.
              ground (arith, has-set s.running id a s.next_controller, v.sound.running_apart a);
        };
        no_idle = inl none_waits;
      }

  pub enqueue-IsValid :
      (s : Scheduler W) (id : RequestId) (r : W)
      → IsValid s
      → in_flight s id ≡ false
      → s.max_concurrent ≤ length s.running
      → length s.queued < s.max_queued
      → IsValid (enqueue s id r)
  unfolding enqueue in_flight
  enqueue-IsValid s id r v new full room =
      let q : QueuedRequest W = record { controller = s.next_controller; run = r } in
      record {
        sound = record {
          queued_distinct = set-HasDistinctKeys s.queued id q v.sound.queued_distinct;
          running_distinct = v.sound.running_distinct;
          detached_distinct = v.sound.detached_distinct;
          within = v.sound.within;
          waiting = ground (arith, length-set_of_new s.queued id q);
          queued_apart = λ a h. ground (arith, has-set s.queued id a q, v.sound.queued_apart a);
          running_apart = v.sound.running_apart;
        };
        no_idle = inr full;
      }

  pub drop-IsValid :
      (s : Scheduler W) (id : RequestId) (controller : ℕ)
      → IsValid s
      → IsValid (drop s id controller)
  unfolding drop delete
  drop-IsValid s id controller v = record {
    sound = record {
      queued_distinct = delete-HasDistinctKeys s.queued id v.sound.queued_distinct;
      running_distinct = v.sound.running_distinct;
      detached_distinct = v.sound.detached_distinct;
      within = v.sound.within;
      waiting = omega (arith, length-delete_le s.queued id, v.sound.waiting);
      queued_apart = λ a h. ground (arith, v.sound.queued_apart a, has-delete_le s.queued id a);
      running_apart = v.sound.running_apart;
    };
    no_idle = ground (arith, v.no_idle);
  }

  pub complete_detached-IsValid :
      (s : Scheduler W) (id : RequestId) → IsValid s → IsValid (complete_detached s id)
  unfolding complete_detached
  complete_detached-IsValid s id v = record {
    sound = record {
      queued_distinct = v.sound.queued_distinct;
      running_distinct = v.sound.running_distinct;
      detached_distinct = delete-HasDistinctKeys s.detached id v.sound.detached_distinct;
      within = v.sound.within;
      waiting = v.sound.waiting;
      queued_apart = λ a h. ground (arith, v.sound.queued_apart a, has-delete_le s.detached id a);
      running_apart = λ a h. ground (arith, v.sound.running_apart a, has-delete_le s.detached id a);
    };
    no_idle = v.no_idle;
  }

  -- The part of the invariant that a change to `trace`, `flights` or the counter keeps.
  pub same_maps :
      (s t : Scheduler W)
      → (t.max_concurrent ≡ s.max_concurrent)
        × (t.max_queued ≡ s.max_queued)
        × (t.queued ≡ s.queued)
        × (t.running ≡ s.running)
        × (t.detached ≡ s.detached)
      → IsValid s
      → IsValid t
  same_maps s t (c, m, q, r, d) v = record {
    sound = record {
      queued_distinct = rw q v.sound.queued_distinct;
      running_distinct = rw r v.sound.running_distinct;
      detached_distinct = rw d v.sound.detached_distinct;
      within = omega (arith, v.sound.within, ap length r);
      waiting = omega (arith, v.sound.waiting, ap length q);
      queued_apart = rw (q, r, d) v.sound.queued_apart;
      running_apart = rw (r, d) v.sound.running_apart;
    };
    no_idle = rw (q, r, c) v.no_idle;
  }
