-- ===== src/Subscriptions/Writer.antt =====
-- `SubscriptionWriter` of packages/context-server/src/subscriptions.ts. A frame goes by the number
-- of its promise. What the writer does to the outside is written to `trace`, newest first.
pub mod Bounded
pub mod Settled
pub mod Flushing
pub mod Ordered
pub mod Drained
mod Tests
use mokei.Common.{
  ℕ, suc, ◌-◌, String, Option, none, some, List, [], ◌∷◌, ◌++◌, Bool, true, false, ◌||◌,
  if◌then◌else◌, leb, ◌==◌, is_some,
}
use mokei.Common.Json.{Json}

-- The errors that stop a writer: too many pending frames, or another error by its message.
pub data WriterError : Type 0 where
  backpressure : (max_pending_frames : ℕ) → WriterError
  plain : (message : String) → WriterError

pub record QueuedFrame : Type 0 where
  pub number : ℕ
  pub notification : Json

pub data Effect : Type 0 where
  writes : QueuedFrame → Effect
  resolves : (number : ℕ) → Effect
  rejects : (number : ℕ) → WriterError → Effect
  reports : WriterError → Effect
  closes_sink : WriterError → Effect

-- `in_flight` is the frame of the outstanding write; `idle_settled` tells whether the promise of
-- `flush()` is resolved; `issued` counts the promises that `enqueue` has returned.
pub record SubscriptionWriter : Type 0 where
  pub max_pending_frames : ℕ
  pub queue : List QueuedFrame
  pub pending : ℕ
  pub draining : Bool
  pub in_flight : Option QueuedFrame
  pub failure : Option WriterError
  pub idle_settled : Bool
  pub issued : ℕ
  pub trace : List Effect

unfoldable pub new_writer : ℕ → SubscriptionWriter
new_writer max_pending_frames = record {
  max_pending_frames = max_pending_frames;
  queue = [];
  pending = 0;
  draining = false;
  in_flight = none;
  failure = none;
  idle_settled = true;
  issued = 0;
  trace = [];
}

-- The frame of a `#drain` that goes on.
unfoldable pub write_next : List QueuedFrame → SubscriptionWriter → SubscriptionWriter
write_next [] w = w
write_next (next ∷ rest) w = record w {
  queue = rest;
  draining = true;
  in_flight = some next;
  trace = writes next ∷ w.trace;
}

-- `#drain`
unfoldable pub drain : SubscriptionWriter → SubscriptionWriter
unfolding write_next
drain w = if w.draining || is_some w.failure then w else write_next w.queue w

-- The frames that a failure finds in the queue.
unfoldable pub reject_queued :
    List QueuedFrame → WriterError → SubscriptionWriter → SubscriptionWriter
reject_queued [] error w = w
reject_queued (frame ∷ rest) error w =
    reject_queued rest error
      (record w { pending = w.pending - 1; trace = rejects frame.number error ∷ w.trace })

-- `if (this.#pending === 0) this.#settleIdle?.()`
unfoldable pub settle_idle : SubscriptionWriter → SubscriptionWriter
settle_idle w = if w.pending == 0 then record w { idle_settled = true } else w

-- What a failure tells the owner of the writer.
unfoldable pub announce : Bool → WriterError → SubscriptionWriter → SubscriptionWriter
announce false error w = w
announce true error w = record w { trace = closes_sink error ∷ reports error ∷ w.trace }

-- `#fail`
unfoldable pub fail : WriterError → Bool → SubscriptionWriter → SubscriptionWriter
unfolding reject_queued announce settle_idle
fail error notify w =
    if is_some w.failure
    then w
    else settle_idle (
        announce notify error
          (reject_queued w.queue error (record w { failure = some error; queue = [] })))

-- The promise of an `enqueue` that is refused.
unfoldable pub refuse : WriterError → SubscriptionWriter → SubscriptionWriter
refuse error w = record w { issued = suc w.issued; trace = rejects w.issued error ∷ w.trace }

-- A frame that `enqueue` takes.
unfoldable pub accept : Json → SubscriptionWriter → SubscriptionWriter
unfolding drain
accept notification w = drain (record w {
  idle_settled = if w.pending == 0 then false else w.idle_settled;
  pending = suc w.pending;
  queue = w.queue ++ record { number = w.issued; notification = notification } ∷ [];
  issued = suc w.issued;
})

-- `enqueue`, by the failure of the writer.
unfoldable pub enqueue_after : Option WriterError → Json → SubscriptionWriter → SubscriptionWriter
unfolding refuse fail accept
enqueue_after (some error) notification w = refuse error w
enqueue_after none notification w =
    if leb w.max_pending_frames w.pending
    then refuse (backpressure w.max_pending_frames)
        (fail (backpressure w.max_pending_frames) true w)
    else accept notification w

unfoldable pub enqueue : Json → SubscriptionWriter → SubscriptionWriter
unfolding enqueue_after
enqueue notification w = enqueue_after w.failure notification w

unfoldable pub abort : WriterError → SubscriptionWriter → SubscriptionWriter
unfolding fail
abort reason w = fail reason false w

-- The outstanding write resolves.
unfoldable pub write_resolved : Option QueuedFrame → SubscriptionWriter → SubscriptionWriter
unfolding settle_idle drain
write_resolved none w = w
write_resolved (some next) w = drain (
    settle_idle (record w {
      draining = false;
      in_flight = none;
      pending = w.pending - 1;
      trace = resolves next.number ∷ w.trace;
    }))

-- The outstanding write rejects.
unfoldable pub write_rejected :
    Option QueuedFrame → WriterError → SubscriptionWriter → SubscriptionWriter
unfolding fail
write_rejected none error w = w
write_rejected (some next) error w = fail error true (record w {
  draining = false;
  in_flight = none;
  pending = w.pending - 1;
  trace = rejects next.number error ∷ w.trace;
})

-- What can happen to a writer.
pub data Event : Type 0 where
  enqueues : Json → Event
  aborts : WriterError → Event
  resolved : Event
  rejected : WriterError → Event

unfoldable pub step : SubscriptionWriter → Event → SubscriptionWriter
unfolding enqueue abort write_resolved write_rejected
step w (enqueues notification) = enqueue notification w
step w (aborts reason) = abort reason w
step w resolved = write_resolved w.in_flight w
step w (rejected error) = write_rejected w.in_flight error w

unfoldable pub run : SubscriptionWriter → List Event → SubscriptionWriter
unfolding step
run w [] = w
run w (e ∷ es) = run (step w e) es
