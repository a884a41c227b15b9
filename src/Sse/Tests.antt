-- ===== src/Sse/Tests.antt =====
-- Three texts to a writer with room for two.
use mokei.Common.{◌≡◌, refl, [], ◌∷◌, map, String, List, arith}
use mokei.Sse.{
  open_writer, write_each, buffered_events, get_events_after, events_from, record_event,
  push_to_buffer, store_at, buffered_from, event_id, events_past,
}
use mokei.Sse.Replay.{keep_last, buffered_events_lem}

abbrev texts : List String
texts = "a" ∷ "b" ∷ "c" ∷ []

buffered_events_lem_example :
    buffered_events (write_each texts (open_writer "s" 2)) ≡ keep_last 2 (events_from "s" 0 texts)
buffered_events_lem_example = buffered_events_lem "s" 2 texts (omega arith)

evaluation : Unit {0}
unfolding keep_last events_from write_each record_event push_to_buffer store_at buffered_from
    buffered_events event_id open_writer events_past get_events_after
evaluation = tt

last_two : map (λ e. e.payload) (keep_last 2 (events_from "s" 0 texts)) ≡ "b" ∷ "c" ∷ []
unfolding evaluation
last_two = refl

buffered_two :
    map (λ e. e.payload) (buffered_events (write_each texts (open_writer "s" 2))) ≡ "b" ∷ "c" ∷ []
unfolding evaluation
buffered_two = refl
