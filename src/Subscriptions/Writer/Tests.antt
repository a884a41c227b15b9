-- ===== src/Subscriptions/Writer/Tests.antt =====
-- A writer with room for two frames, and what is said of it at concrete histories.
use mokei.Common.{◌≡◌, ◌+◌, refl, List, [], ◌∷◌, ◌++◌, true, false, ite, dec_lt, is_some}
use mokei.Common.Json.{Json, text}
use mokei.Subscriptions.Writer.{
  Event, enqueues, aborts, rejected, plain, backpressure, writes, rejects, reports, closes_sink,
  QueuedFrame, new_writer, step, run,
}
use mokei.Subscriptions.Writer.Bounded.{IsValid, run_from_new-IsValid}
use mokei.Subscriptions.Writer.Settled.{among, flying, settlements, promises_settled_once}
use mokei.Subscriptions.Writer.Flushing.{flush_hangs}
use mokei.Subscriptions.Writer.Ordered.{written, submitted, notifications, written_in_order}
use mokei.Subscriptions.Writer.Drained.{writes_resolve, all_written}

evaluation : Unit {0}
unfolding new_writer run step
evaluation = tt

abbrev two_sent : List Event
two_sent = enqueues (text "a") ∷ enqueues (text "b") ∷ []

abbrev overflowing : List Event
overflowing = enqueues (text "a") ∷ enqueues (text "b") ∷ enqueues (text "c") ∷ []

abbrev first_frame : QueuedFrame
first_frame = record { number = 0; notification = text "a" }

overflow_trace :
    (run (new_writer 2) overflowing).trace
    ≡ rejects 2 (backpressure 2)
      ∷ closes_sink (backpressure 2)
      ∷ reports (backpressure 2)
      ∷ rejects 1 (backpressure 2)
      ∷ writes first_frame
      ∷ []
unfolding evaluation
overflow_trace = refl

run_from_new-IsValid_example : IsValid (run (new_writer 2) overflowing)
run_from_new-IsValid_example = run_from_new-IsValid 2 overflowing

promises_settled_once_example :
    let w = run (new_writer 2) overflowing in
    among 1 w.queue + flying 1 w.in_flight + settlements 1 w.trace ≡ ite (dec_lt 1 w.issued) 1 0
promises_settled_once_example = promises_settled_once 2 overflowing 1

written_in_order_example :
    let w = run (new_writer 2) two_sent in
    (rest : List Json) × (written w.trace ++ rest ≡ submitted two_sent)
    × (is_some w.failure ≡ false → rest ≡ notifications w.queue)
written_in_order_example = written_in_order 2 two_sent

all_written_example :
    let w = run (new_writer 2) two_sent in
    let v = run w (writes_resolve w.pending) in
    (written v.trace ≡ submitted two_sent) × (v.idle_settled ≡ true)
unfolding evaluation
all_written_example = all_written 2 two_sent refl

flush_hangs_example :
    let w = step (run (new_writer 2) overflowing) (rejected (plain "closed")) in
    (w.pending ≡ 0) × ((run w (aborts (plain "gone") ∷ [])).idle_settled ≡ false)
unfolding evaluation
flush_hangs_example =
    flush_hangs 2 overflowing (aborts (plain "gone") ∷ []) first_frame (backpressure 2)
      (plain "closed") refl refl
