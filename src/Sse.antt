-- ===== src/Sse.antt =====
-- packages/http-server/src/sse-writer.ts: the replay buffer and the writes of `SSEWriter`. The buffer is an
-- array of `capacity` slots, used as a ring.
mod Ring
pub mod Replay
mod Tests
use mokei.Common.{
  ℕ, zero, suc, ◌+◌, ◌%◌, ◌-◌, String, Option, none, some, List, [], ◌∷◌, ◌++◌, Bool, true, false,
  if◌then◌else◌, ltb, ◌==◌, string_key, ◌===◌, concat, show_nat,
}
use mokei.Common.OrderedMap.{OrderedMap}

pub record SseEvent : Type 0 where
  pub id : String
  pub payload : String

-- The slots of the array that are set, by index.
abbrev pub Slots : Type 0
Slots = ℕ → Option SseEvent

pub record SseWriter : Type 0 where
  pub stream_id : String
  pub counter : ℕ
  pub buffer : Slots
  pub buffer_size : ℕ
  pub buffer_start : ℕ
  pub buffer_count : ℕ
  pub closed : Bool
  -- What `onEvent` was told, newest first.
  pub recorded : List SseEvent
  -- The frames that were written, newest first.
  pub written : List String

unfoldable pub open_writer : String → ℕ → SseWriter
open_writer stream_id size = record {
  stream_id = stream_id;
  counter = 0;
  buffer = λ i. none;
  buffer_size = size;
  buffer_start = 0;
  buffer_count = 0;
  closed = false;
  recorded = [];
  written = [];
}

unfoldable pub store_at : Slots → ℕ → SseEvent → Slots
store_at buffer i e j = if i == j then some e else buffer j

-- `#pushToBuffer`. With a buffer of size 0 the source writes at index 0 and moves the start to
-- `NaN`; the count stays 0, so that nothing is ever read back.
unfoldable pub push_to_buffer : SseEvent → SseWriter → SseWriter
unfolding store_at
push_to_buffer e w =
    if ltb w.buffer_count w.buffer_size
    then record w {
      buffer = store_at w.buffer ((w.buffer_start + w.buffer_count) % w.buffer_size) e;
      buffer_count = suc w.buffer_count;
    }
    else record w {
      buffer = store_at w.buffer w.buffer_start e;
      buffer_start = (w.buffer_start + 1) % w.buffer_size;
    }

-- `#nextID` is the counter after its increment, with the stream's id before it.
unfoldable pub event_id : SseWriter → ℕ → String
event_id w n = concat (w.stream_id ∷ "-" ∷ show_nat n ∷ [])

unfoldable pub frame : SseEvent → String
frame e = concat ("id: " ∷ e.id ∷ "\ndata: " ∷ e.payload ∷ "\n\n" ∷ [])

unfoldable pub write_priming_event : SseWriter → SseWriter
unfolding push_to_buffer event_id frame
write_priming_event w =
    if w.closed
    then w
    else let e : SseEvent = record { id = event_id w (suc w.counter); payload = "" } in
      let v = push_to_buffer e (record w { counter = suc w.counter }) in
      record v { written = frame e ∷ v.written }

-- `writeEvent` up to its gate: the event gets its id and is recorded.
unfoldable pub record_event : SseWriter → String → SseWriter
unfolding push_to_buffer event_id
record_event w payload =
    if w.closed
    then w
    else let e : SseEvent = record { id = event_id w (suc w.counter); payload = payload } in
      let v = push_to_buffer e (record w { counter = suc w.counter }) in
      record v { recorded = e ∷ v.recorded }

-- `writeEvent` behind its gate, and `writeRawEvent`.
unfoldable pub write_raw_event : SseWriter → SseEvent → SseWriter
unfolding frame
write_raw_event w e = if w.closed then w else record w { written = frame e ∷ w.written }

-- `writeRetry`
unfoldable pub write_retry : SseWriter → ℕ → SseWriter
write_retry w ms =
    if w.closed
    then w
    else record w { written = concat ("retry: " ∷ show_nat ms ∷ "\n\n" ∷ []) ∷ w.written }

unfoldable pub close : SseWriter → SseWriter
close w = record w { closed = true }

cons_some : Option SseEvent → List SseEvent → List SseEvent
cons_some none es = es
cons_some (some e) es = e ∷ es

-- The loop of `#getBufferedEvents`, with `n` entries left from the index `i`.
unfoldable pub buffered_from : SseWriter → ℕ → ℕ → List SseEvent
unfolding cons_some
buffered_from w i zero = []
buffered_from w i (suc n) =
    cons_some (w.buffer ((w.buffer_start + i) % w.buffer_size)) (buffered_from w (suc i) n)

unfoldable pub buffered_events : SseWriter → List SseEvent
unfolding buffered_from
buffered_events w = buffered_from w 0 w.buffer_count

-- `findIndex` and `slice(index + 1)`, or none where the id is not found.
unfoldable pub events_past : String → List SseEvent → Option (List SseEvent)
events_past id [] = none
events_past id (e ∷ es) = if e.id === id then some es else events_past id es

or_all : List SseEvent → Option (List SseEvent) → List SseEvent
or_all all none = all
or_all all (some es) = es

unfoldable pub get_events_after : SseWriter → String → List SseEvent
unfolding events_past or_all buffered_events
get_events_after w id = or_all (buffered_events w) (events_past id (buffered_events w))

unfoldable pub write_each : List String → SseWriter → SseWriter
unfolding record_event
write_each [] w = w
write_each (t ∷ ts) w = write_each ts (record_event w t)

-- The events of the texts, numbered from after `n`.
unfoldable pub events_from : String → ℕ → List String → List SseEvent
events_from stream n [] = []
events_from stream n (t ∷ ts) =
    record { id = concat (stream ∷ "-" ∷ show_nat (suc n) ∷ []); payload = t }
    ∷ events_from stream (suc n) ts
