-- ===== src/Sse/Replay/Priming.antt =====
-- `writePrimingEvent` of packages/http-server/src/sse-writer.ts, and what its `onEvent` is told.
use mokei.Common.{
  ℕ, suc, ◌-◌, ◌<◌, ◌≡◌, refl, sym, ap, subst, ◌∙◌, String, List, [], ◌∷◌, false, arith, concat,
  show_nat, drop_all, drop, length, length-drop, dec_lt,
}
use mokei.Sse.{
  SseEvent, SseWriter, open_writer, push_to_buffer, buffered_events, record_event, event_id,
  write_each, events_from, write_priming_event,
}
use mokei.Sse.Ring.{Holds}
use mokei.Sse.Replay.{
  keep_last, Continues, push-Continues, push-Holds, next_event, pushed, recorded_event,
  record_event-open, buffered_events-write_each,
}

-- What a recorded event leaves of a writer that is open.
pub record Records (w : SseWriter) (t : String) (v : SseWriter) : Type 0 where
  pub recorded_is :
      v.recorded ≡ record { id = event_id w (suc w.counter); payload = t } ∷ w.recorded
  pub open_still : v.closed ≡ false
  pub stream_same : v.stream_id ≡ w.stream_id
  pub counter_next : v.counter ≡ suc w.counter

pub record_event-Records :
    (w : SseWriter) (t : String) → w.closed ≡ false → Records w t (record_event w t)
unfolding recorded_event pushed next_event event_id
record_event-Records w t c =
    let e = next_event w t in
    let k : Continues (record w { counter = suc w.counter }) (pushed w t) =
      push-Continues (record w { counter = suc w.counter }) e in
    subst (Records w t) (sym (record_event-open w t c)) (record {
      recorded_is = ap (λ es. e ∷ es) k.recorded_is;
      open_still = k.closed_is ∙ c;
      stream_same = k.stream_is;
      counter_next = k.counter_is;
    })

-- The event that opens a new stream.
unfoldable pub priming_event : String → SseEvent
priming_event stream = record { id = concat (stream ∷ "-" ∷ show_nat 1 ∷ []); payload = "" }

pub record Primed (stream : String) (w : SseWriter) : Type 0 where
  pub opened : w.closed ≡ false
  pub nothing_recorded : w.recorded ≡ []
  pub stream_named : w.stream_id ≡ stream
  pub counted : w.counter ≡ 1

pub open_writer-Primed :
    (stream : String) (n : ℕ) → Primed stream (write_priming_event (open_writer stream n))
unfolding write_priming_event open_writer priming_event event_id
open_writer-Primed stream n =
    let w = record (open_writer stream n) { counter = 1 } in
    let k : Continues w (push_to_buffer (priming_event stream) w) =
      push-Continues w (priming_event stream) in
    record {
      opened = k.closed_is;
      nothing_recorded = k.recorded_is;
      stream_named = k.stream_is;
      counted = k.counter_is;
    }

primed-Holds :
    (stream : String) (n : ℕ)
    → 0 < n
    → Holds (write_priming_event (open_writer stream n)) (keep_last n (priming_event stream ∷ []))
unfolding write_priming_event open_writer priming_event event_id keep_last
primed-Holds stream n p =
    let w = record (open_writer stream n) { counter = 1 } in
    let k = push-Holds w [] (priming_event stream) (
      subst (Holds w) (sym (drop_all (0 - n) [] (omega arith))) (record {
        size_pos = p;
        start_lt = p;
        count_is = refl;
        count_le = omega arith;
        slots = λ i l. ground arith;
      })) in
    record {
      size_pos = k.size_pos;
      start_lt = k.start_lt;
      count_is = k.count_is;
      count_le = k.count_le;
      slots = k.slots;
    }

primed-size :
    (stream : String) (n : ℕ) → (write_priming_event (open_writer stream n)).buffer_size ≡ n
unfolding write_priming_event open_writer priming_event event_id
primed-size stream n =
    (push-Continues (record (open_writer stream n) { counter = 1 }) (priming_event stream)).size_is

-- A stream that was primed holds the latest of the priming event and of the written events.
pub primed-buffered_events :
    (stream : String) (n : ℕ) (ts : List String)
    → 0 < n
    → buffered_events (write_each ts (write_priming_event (open_writer stream n)))
      ≡ keep_last n (priming_event stream ∷ events_from stream 1 ts)
primed-buffered_events stream n ts p =
    let w = write_priming_event (open_writer stream n) in
    let o = open_writer-Primed stream n in
    let s = primed-size stream n in
    buffered_events-write_each ts w (priming_event stream ∷ []) o.opened (
      subst (λ k. Holds w (keep_last k (priming_event stream ∷ []))) (sym s)
        (primed-Holds stream n p))
    ∙ ap (λ k. keep_last k (priming_event stream ∷ events_from w.stream_id w.counter ts)) s
    ∙ ap (λ x. keep_last n (priming_event stream ∷ events_from x w.counter ts)) o.stream_named
    ∙ ap (λ x. keep_last n (priming_event stream ∷ events_from stream x ts)) o.counted

-- Events that fell out of a log do not matter to a buffer of the same size.
pub keep_last-cons :
    (n : ℕ) (e : SseEvent) (es : List SseEvent)
    → keep_last n (e ∷ keep_last n es) ≡ keep_last n (e ∷ es)
unfolding keep_last
keep_last-cons n e es =
    let d = length-drop (length es - n) es in
    elim (dec_lt (length es) n) [
      | yes l ↦
          let k : length es - n ≡ 0 = omega arith in
          ap (λ i. drop (suc (length (drop i es)) - n) (e ∷ drop i es)) k
      | no l ↦
          let a : suc (length (drop (length es - n) es)) - n ≡ 1 = omega arith in
          let b : suc (length es) - n ≡ suc (length es - n) = omega arith in
          ap (λ i. drop i (e ∷ drop (length es - n) es)) a ∙ sym (ap (λ i. drop i (e ∷ es)) b)
    ]
