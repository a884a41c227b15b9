-- ===== src/Sse/Replay.antt =====
-- The replay buffer of packages/http-server/src/sse-writer.ts holds the latest events, in order.
pub mod Priming
use mokei.Common.{
  ℕ, zero, suc, ◌+◌, ◌-◌, ◌%◌, ◌<◌, ◌≤◌, ◌≡◌, refl, sym, ap, subst, ◌∙◌, ltb, String, List, [], ◌∷◌,
  ◌++◌, Bool, true, false, if◌then◌else◌, length, length-append, drop, drop-append, length-drop,
  drop-suc, drop_all, append-nil, append_assoc, arith,
}
use mokei.Sse.{
  SseEvent, SseWriter, open_writer, store_at, push_to_buffer, buffered_from, buffered_events,
  cons_some,
}
use mokei.Sse.{record_event, event_id, write_each, events_from}
use mokei.Sse.Ring.{Holds, fill-Holds, evict-Holds}

-- What is left of the events after a push.
unfoldable pub keep_last : ℕ → List SseEvent → List SseEvent
keep_last n es = drop (length es - n) es

keep_last-fill :
    (n : ℕ) (es : List SseEvent) (e : SseEvent)
    → length (keep_last n es) < n
    → keep_last n (es ++ e ∷ []) ≡ keep_last n es ++ e ∷ []
unfolding keep_last
keep_last-fill n es e h =
    let a = length-append es (e ∷ []) in
    let d = length-drop (length es - n) es in
    ap (λ k. drop k (es ++ e ∷ [])) (omega arith)
    ∙ drop-append (length es - n) es (e ∷ []) (omega arith)

keep_last-evict :
    (n : ℕ) (es : List SseEvent) (e : SseEvent)
    → 0 < n
    → n ≤ length (keep_last n es)
    → keep_last n (es ++ e ∷ []) ≡ drop (suc (length es - n)) es ++ e ∷ []
unfolding keep_last
keep_last-evict n es e p h =
    let a = length-append es (e ∷ []) in
    let d = length-drop (length es - n) es in
    let k : length (es ++ e ∷ []) - n ≡ suc (length es - n) = omega arith in
    ap (λ x. drop x (es ++ e ∷ [])) k ∙ drop-append (suc (length es - n)) es (e ∷ []) (omega arith)

pub push-Holds :
    (w : SseWriter) (es : List SseEvent) (e : SseEvent)
    → Holds w (keep_last w.buffer_size es)
    → Holds (push_to_buffer e w) (keep_last w.buffer_size (es ++ e ∷ []))
unfolding push_to_buffer keep_last
push-Holds w es e h = go (ltb w.buffer_count w.buffer_size) refl
  where
    go :
        (b : Bool)
        → ltb w.buffer_count w.buffer_size ≡ b
        → Holds
            (if b
              then record w {
                buffer = store_at w.buffer ((w.buffer_start + w.buffer_count) % w.buffer_size) e;
                buffer_count = suc w.buffer_count;
              }
              else record w {
                buffer = store_at w.buffer w.buffer_start e;
                buffer_start = (w.buffer_start + 1) % w.buffer_size;
              })
            (keep_last w.buffer_size (es ++ e ∷ []))
    go true q =
        let l : w.buffer_count < w.buffer_size = ground arith in
        subst
          (Holds (record w {
            buffer = store_at w.buffer ((w.buffer_start + w.buffer_count) % w.buffer_size) e;
            buffer_count = suc w.buffer_count;
          }))
          (sym (keep_last-fill w.buffer_size es e (subst (λ x. x < w.buffer_size) h.count_is l)))
          (fill-Holds w (keep_last w.buffer_size es) e h l)
    go false q =
        let l : w.buffer_size ≤ w.buffer_count = ground arith in
        let m : w.buffer_size ≤ length (keep_last w.buffer_size es) =
          subst (λ x. w.buffer_size ≤ x) h.count_is l in
        let d = length-drop (length es - w.buffer_size) es in
        let (a, (c, g)) =
          drop-suc (length es - w.buffer_size) es (ground (arith, h.size_pos, m, d)) in
        subst
          (Holds (record w {
            buffer = store_at w.buffer w.buffer_start e;
            buffer_start = (w.buffer_start + 1) % w.buffer_size;
          }))
          (sym (keep_last-evict w.buffer_size es e h.size_pos m))
          (evict-Holds w a (drop (suc (length es - w.buffer_size)) es) e (subst (Holds w) c h) l)

buffered_from-Holds :
    (w : SseWriter) (es : List SseEvent) (i n : ℕ)
    → Holds w es
    → i + n ≡ w.buffer_count
    → buffered_from w i n ≡ drop i es
unfolding buffered_from cons_some
buffered_from-Holds w es i zero h e = sym (drop_all i es (ground (arith, h.count_is, e)))
buffered_from-Holds w es i (suc n) h e =
    let (a, (d, g)) = drop-suc i es (ground (arith, h.count_is, e)) in
    ap (λ x. cons_some x (buffered_from w (suc i) n)) (h.slots i (omega arith) ∙ g)
    ∙ ap (λ x. a ∷ x) (buffered_from-Holds w es (suc i) n h (omega arith))
    ∙ sym d

-- What a push and a write leave alone.
pub record Continues (w v : SseWriter) : Type 0 where
  pub closed_is : v.closed ≡ w.closed
  pub stream_is : v.stream_id ≡ w.stream_id
  pub size_is : v.buffer_size ≡ w.buffer_size
  pub counter_is : v.counter ≡ w.counter
  pub recorded_is : v.recorded ≡ w.recorded

pub push-Continues : (w : SseWriter) (e : SseEvent) → Continues w (push_to_buffer e w)
unfolding push_to_buffer
push-Continues w e = go (ltb w.buffer_count w.buffer_size)
  where
    go :
        (b : Bool)
        → Continues w (
            if b
            then record w {
              buffer = store_at w.buffer ((w.buffer_start + w.buffer_count) % w.buffer_size) e;
              buffer_count = suc w.buffer_count;
            }
            else record w {
              buffer = store_at w.buffer w.buffer_start e;
              buffer_start = (w.buffer_start + 1) % w.buffer_size;
            })
    go true = record {
      closed_is = refl;
      stream_is = refl;
      size_is = refl;
      counter_is = refl;
      recorded_is = refl;
    }
    go false = record {
      closed_is = refl;
      stream_is = refl;
      size_is = refl;
      counter_is = refl;
      recorded_is = refl;
    }

-- `buffered_events` of any writer that holds some events.
buffered_events-Holds : (w : SseWriter) (es : List SseEvent) → Holds w es → buffered_events w ≡ es
unfolding buffered_events
buffered_events-Holds w es h = buffered_from-Holds w es 0 w.buffer_count h (omega arith)

pub next_event : SseWriter → String → SseEvent
unfolding event_id
next_event w t = record { id = event_id w (suc w.counter); payload = t }

pub pushed : SseWriter → String → SseWriter
pushed w t = push_to_buffer (next_event w t) (record w { counter = suc w.counter })

pub recorded_event : SseWriter → String → SseWriter
unfolding pushed
recorded_event w t = record (pushed w t) { recorded = next_event w t ∷ (pushed w t).recorded }

pub record_event-open :
    (w : SseWriter) (t : String) → w.closed ≡ false → record_event w t ≡ recorded_event w t
unfolding record_event recorded_event pushed next_event
record_event-open w t h = ap (λ b. if b then w else recorded_event w t) h

recorded-Holds :
    (w : SseWriter) (d : List SseEvent) (t : String)
    → Holds w (keep_last w.buffer_size d)
    → Holds (recorded_event w t) (keep_last w.buffer_size (d ++ next_event w t ∷ []))
unfolding recorded_event pushed
recorded-Holds w d t h =
    let k =
      push-Holds (record w { counter = suc w.counter }) d (next_event w t)
        (record {
          size_pos = h.size_pos;
          start_lt = h.start_lt;
          count_is = h.count_is;
          count_le = h.count_le;
          slots = h.slots;
        }) in
    record {
      size_pos = k.size_pos;
      start_lt = k.start_lt;
      count_is = k.count_is;
      count_le = k.count_le;
      slots = k.slots;
    }

pub buffered_events-write_each :
    (ts : List String) (w : SseWriter) (d : List SseEvent)
    → w.closed ≡ false
    → Holds w (keep_last w.buffer_size d)
    → buffered_events (write_each ts w)
      ≡ keep_last w.buffer_size (d ++ events_from w.stream_id w.counter ts)
unfolding write_each events_from recorded_event pushed next_event event_id
buffered_events-write_each [] w d c h =
    buffered_events-Holds w (keep_last w.buffer_size d) h
    ∙ ap (keep_last w.buffer_size) (sym (append-nil d))
buffered_events-write_each (t ∷ ts) w d c h =
    let v = recorded_event w t in
    let e = next_event w t in
    let k : Continues (record w { counter = suc w.counter }) (pushed w t) =
      push-Continues (record w { counter = suc w.counter }) e in
    let ih : buffered_events (write_each ts v)
        ≡ keep_last v.buffer_size ((d ++ e ∷ []) ++ events_from v.stream_id v.counter ts) =
      buffered_events-write_each ts v (d ++ e ∷ []) (k.closed_is ∙ c) (
        subst (λ m. Holds v (keep_last m (d ++ e ∷ []))) (sym k.size_is)
          (recorded-Holds w d t h)) in
    ap (λ x. buffered_events (write_each ts x)) (record_event-open w t c)
    ∙ ih
    ∙ ap (λ m. keep_last m ((d ++ e ∷ []) ++ events_from v.stream_id v.counter ts)) k.size_is
    ∙ ap (λ x. keep_last w.buffer_size ((d ++ e ∷ []) ++ events_from x v.counter ts)) k.stream_is
    ∙ ap (λ x. keep_last w.buffer_size ((d ++ e ∷ []) ++ events_from w.stream_id x ts)) k.counter_is
    ∙ ap (keep_last w.buffer_size)
        (append_assoc d (e ∷ []) (events_from w.stream_id (suc w.counter) ts))

-- A new writer with a buffer of some size holds, after any texts were written, the latest of their
-- events, as many as fit, in the order of their writing and with the ids that they were given.
pub buffered_events_lem :
    (stream : String) (n : ℕ) (ts : List String)
    → 0 < n
    → buffered_events (write_each ts (open_writer stream n)) ≡ keep_last n (events_from stream 0 ts)
unfolding open_writer keep_last
buffered_events_lem stream n ts p = buffered_events-write_each ts (open_writer stream n) [] refl (
    subst (Holds (open_writer stream n)) (sym (drop_all (0 - n) [] (omega arith))) (record {
      size_pos = p;
      start_lt = p;
      count_is = refl;
      count_le = omega arith;
      slots = λ i l. ground arith;
    }))
