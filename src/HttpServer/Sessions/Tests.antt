-- ===== src/HttpServer/Sessions/Tests.antt =====
-- A manager with room for one session, and a log with room for two events.
use mokei.Common.{
  ◌++◌, true, ◌≡◌, refl, none, some, List, [], ◌∷◌, string_key, String-discrete, arith, ◌≢◌, String,
}
use text.Mathlib.TextEquality.{eq_iff}
use mokei.Common.OrderedMap.{get, set, delete}
use mokei.Sse.{SseEvent}
use mokei.Sse.Replay.{keep_last}
use mokei.HttpServer.Sessions.{
  Session, Identity, Event, creates, touches, gets_server, opens_get, cleans_up, disposal_ends,
  calls_on_delete, closes_writer, disposes_server, new_manager, new_session, cleanup, dispose,
  events_after, run, step,
}
use mokei.HttpServer.Sessions.Registry.{IsValid, sessions-IsValid}
use mokei.HttpServer.Sessions.Disposal.{stale_with_server}
use mokei.HttpServer.Sessions.Cleaning.{still_used, get-cleanup}
use mokei.HttpServer.Sessions.Replaying.{append_each, events_after_lem}

evaluation : Unit {0}
unfolding new_manager new_session run step get set delete String-discrete cleanup
evaluation = tt

abbrev history : List Event
history =
    creates "a" 0 none
    ∷ gets_server "a" 7
    ∷ opens_get "a" 1
    ∷ creates "b" 5 none
    ∷ touches "a" 10
    ∷ []

one_session :
    (get (run (new_manager 1 30) history).sessions "b" ≡ none)
    × (get (cleanup 41 (run (new_manager 1 30) history)).sessions "a" ≡ none)
unfolding evaluation
one_session = (refl, refl)

-- The idle session's server is disposed of, then its stream is closed and its owner told.
closed_at_last :
    (run (new_manager 1 30) (history ++ cleans_up 41 ∷ disposal_ends true ∷ [])).trace
    ≡ calls_on_delete "a" ∷ closes_writer 1 ∷ disposes_server 7 ∷ []
unfolding evaluation
closed_at_last = refl

sessions-IsValid_example : IsValid (run (new_manager 1 30) history)
sessions-IsValid_example = sessions-IsValid 1 30 history

get-cleanup_example :
    let m = run (new_manager 1 30) history in
    (get (cleanup 41 m).sessions "a" ≡ still_used m.session_timeout_ms 41 (get m.sessions "a"))
    × ((cleanup 41 m).disposing
        ≡ m.disposing ++ stale_with_server m.session_timeout_ms 41 m.sessions)
    × ((dispose m).sessions ≡ [])
get-cleanup_example = get-cleanup 1 30 history 41 "a"

abbrev session : Session
session = record {
  session_id = "a";
  server = none;
  post_streams = [];
  get_stream = none;
  last_activity = 0;
  replay_log = [];
  owner = none;
  request_auth = [];
}

abbrev event : String → SseEvent
event id = record { id = id; payload = "p" }

others_differ :
    ◌≢◌ {A = String} "s-1" "s-2"
    × ◌≢◌ {A = String} "s-1" "t"
    × ◌≢◌ {A = String} "s-2" "t"
    × ◌≢◌ {A = String} "s-3" "t"
others_differ = (
  ground (arith, eq_iff "s-1" "s-2"),
  ground (arith, eq_iff "s-1" "t"),
  ground (arith, eq_iff "s-2" "t"),
  ground (arith, eq_iff "s-3" "t"),
)

events_after_lem_example :
    let events = event "s-1" ∷ event "s-2" ∷ event "s-3" ∷ [] in
    let v = append_each events 2 session in
    (events_after v "s-2" ≡ event "s-3" ∷ []) × (events_after v "t" ≡ keep_last 2 events)
events_after_lem_example =
    events_after_lem 2 session (event "s-1" ∷ []) (event "s-3" ∷ []) (event "s-2") "t" refl
      (omega arith) (others_differ.0, tt)
      (others_differ.1, (others_differ.2, (others_differ.3, tt)))

abbrev alice : Identity
alice = record { issuer = some "idp"; subject = "alice" }
