-- ===== src/Rpc/Scheduler.antt =====
-- packages/context-rpc/src/scheduler.ts. Each `new AbortController()` is the next number, and the
-- promise that `schedule` returns for an accepted request goes by the number of its controller.
-- A handler (`run`) is a value of any type `W`. What the methods do to the outside is written to
-- `trace`, newest first; `flights` holds the promise reactions that `#start` leaves behind, which
-- fire once each.
pub mod Invariant
pub mod Valid
pub mod Accounting
pub mod Fairness
mod Tests
use mokei.Common.{
  ℕ, suc, Option, or_else, none, some, List, [], ◌∷◌, Bool, ltb, leb, if◌then◌else◌, ◌||◌, length,
  RequestId, concat, show_id, request_key, nat_key,
}
use mokei.Common.OrderedMap.{OrderedMap, get, has, set, delete}
use mokei.Rpc.Message.{
  Response, RpcError, to_response, plain_error, invalid_request, internal_error,
}

pub record QueuedRequest (W : Type 0) : Type 0 where
  pub controller : ℕ
  pub run : W

pub data Effect (W : Type 0) : Type 0 where
  starts : (controller : ℕ) → W → Effect W
  aborts : (controller : ℕ) → Effect W
  answers : (controller : ℕ) → Option Response → Effect W

pub record Scheduler (W : Type 0) : Type 0 where
  pub max_concurrent : ℕ
  pub max_queued : ℕ
  pub queued : OrderedMap RequestId (QueuedRequest W)
  pub running : OrderedMap RequestId ℕ
  pub detached : OrderedMap RequestId ℕ
  pub next_controller : ℕ
  pub flights : OrderedMap ℕ RequestId
  pub trace : List (Effect W)

-- What `schedule` returns: a refusal that is written at once, or the promise of a controller.
pub data Outcome : Type 0 where
  refused : Response → Outcome
  pending : (controller : ℕ) → Outcome

pub duplicate : RequestId → Response
duplicate id =
    to_response
      (plain_error invalid_request
        (concat ("Request id " ∷ show_id id ∷ " is already in flight" ∷ [])))
      id

pub server_busy : RequestId → Response
server_busy id = to_response (plain_error internal_error "Server busy") id

module _ {W : Type 0} where
  unfoldable pub init : ℕ → ℕ → Scheduler W
  init max_concurrent max_queued = record {
    max_concurrent = max_concurrent;
    max_queued = max_queued;
    queued = [];
    running = [];
    detached = [];
    next_controller = 0;
    flights = [];
    trace = [];
  }

  -- `#start`
  unfoldable pub start : Scheduler W → RequestId → ℕ → W → Scheduler W
  start s id controller run = record s {
    running = set s.running id controller;
    flights = set s.flights controller id;
    trace = starts controller run ∷ s.trace;
  }

  -- The loop of `#drain`: `next` is the first entry, and its removal leaves the rest.
  unfoldable pub drain_loop : OrderedMap RequestId (QueuedRequest W) → Scheduler W → Scheduler W
  drain_loop [] s = s
  drain_loop ((id, next) ∷ rest) s =
      let later =
        drain_loop rest (start (record s { queued = rest }) id next.controller next.run) in
      if ltb (length s.running) s.max_concurrent then later else s

  unfoldable pub drain : Scheduler W → Scheduler W
  drain s = drain_loop s.queued s

  pub in_flight : Scheduler W → RequestId → Bool
  in_flight s id = has s.running id || has s.queued id || has s.detached id

  pub enqueue : Scheduler W → RequestId → W → Scheduler W
  enqueue s id run = record s {
    queued = set s.queued id (record { controller = s.next_controller; run = run });
    next_controller = suc s.next_controller;
  }

  unfoldable pub schedule : Scheduler W → RequestId → W → Scheduler W × Outcome
  unfolding in_flight start enqueue duplicate server_busy
  schedule s id run =
      if in_flight s id
      then (s, refused (duplicate id))
      else if ltb (length s.running) s.max_concurrent
      then (
        start (record s { next_controller = suc s.next_controller }) id s.next_controller run,
        pending s.next_controller,
      )
      else if leb s.max_queued (length s.queued)
      then (s, refused (server_busy id))
      else (enqueue s id run, pending s.next_controller)

  -- Removes a queued request, aborts its controller and resolves its promise with null.
  pub drop : Scheduler W → RequestId → ℕ → Scheduler W
  drop s id controller = record s {
    queued = delete s.queued id;
    trace = answers controller none ∷ aborts controller ∷ s.trace;
  }

  abort : Scheduler W → Option ℕ → Scheduler W
  abort s none = s
  abort s (some controller) = record s { trace = aborts controller ∷ s.trace }

  cancel_as : Scheduler W → RequestId → Option (QueuedRequest W) → Scheduler W
  unfolding drop abort
  cancel_as s id (some q) = drop s id q.controller
  cancel_as s id none = abort s (or_else (get s.running id) (get s.detached id))

  unfoldable pub cancel : Scheduler W → RequestId → Scheduler W
  unfolding cancel_as
  cancel s id = cancel_as s id (get s.queued id)

  drop_each : OrderedMap RequestId (QueuedRequest W) → Scheduler W → Scheduler W
  unfolding drop
  drop_each [] s = s
  drop_each ((id, q) ∷ rest) s = drop_each rest (drop s id q.controller)

  abort_each : OrderedMap RequestId ℕ → Scheduler W → Scheduler W
  unfolding abort
  abort_each [] s = s
  abort_each ((id, controller) ∷ rest) s = abort_each rest (abort s (some controller))

  unfoldable pub abort_all : Scheduler W → Scheduler W
  unfolding drop_each abort_each
  abort_all s = abort_each s.detached (abort_each s.running (drop_each s.queued s))

  detach_as : Scheduler W → RequestId → Option ℕ → Scheduler W
  detach_as s id none = s
  detach_as s id (some controller) =
      drain (record s { running = delete s.running id; detached = set s.detached id controller })

  unfoldable pub detach : Scheduler W → RequestId → Scheduler W
  unfolding detach_as
  detach s id = detach_as s id (get s.running id)

  unfoldable pub complete_detached : Scheduler W → RequestId → Scheduler W
  complete_detached s id = record s { detached = delete s.detached id }

  -- `reclaim`, then the promise resolves: with the response, or with null where `run` rejected.
  settle_as : Scheduler W → ℕ → Option Response → Option RequestId → Scheduler W
  settle_as s controller response none = s
  settle_as s controller response (some id) =
      let t =
        drain (record s { running = delete s.running id; flights = delete s.flights controller }) in
      record t { trace = answers controller response ∷ t.trace }

  unfoldable pub settle : Scheduler W → ℕ → Option Response → Scheduler W
  unfolding settle_as
  settle s controller response = settle_as s controller response (get s.flights controller)

-- Everything that may happen to a scheduler: its methods, and the end of a handler.
pub data Call (W : Type 0) : Type 0 where
  schedules : RequestId → W → Call W
  cancels : RequestId → Call W
  aborts_all : Call W
  detaches : RequestId → Call W
  completes_detached : RequestId → Call W
  settles : (controller : ℕ) → Option Response → Call W

module _ {W : Type 0} where
  unfoldable pub step : Scheduler W → Call W → Scheduler W
  step s (schedules id run) = (schedule s id run).0
  step s (cancels id) = cancel s id
  step s aborts_all = abort_all s
  step s (detaches id) = detach s id
  step s (completes_detached id) = complete_detached s id
  step s (settles controller response) = settle s controller response

  unfoldable pub run : Scheduler W → List (Call W) → Scheduler W
  run s [] = s
  run s (c ∷ cs) = run (step s c) cs
