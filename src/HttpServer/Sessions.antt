-- ===== src/HttpServer/Sessions.antt =====
-- packages/http-server/src/session.ts. Servers and stream writers go by numbers. The time and the
-- random ids of new sessions are given. What the manager does to the outside is written to `trace`,
-- newest first.
pub mod Registry
pub mod Cleaning
pub mod Replaying
pub mod Owners
pub mod Disposal
mod Tests
use mokei.Common.{
  ℕ, ◌+◌, ◌-◌, String, Option, none, some, List, [], ◌∷◌, ◌++◌, Bool, true, false, ◌&&◌,
  if◌then◌else◌, ltb, leb, length, drop, is_some, RequestId, string_key, request_key, ◌===◌,
}
use mokei.Common.OrderedMap.{OrderedMap, get, set, delete}
use mokei.Sse.{SseEvent, events_past}

-- What the sessions read of an `AuthInfo`, and the owner of a session.
pub record Identity : Type 0 where
  pub issuer : Option String
  pub subject : String

pub record Session : Type 0 where
  pub session_id : String
  pub server : Option ℕ
  pub post_streams : OrderedMap RequestId ℕ
  pub get_stream : Option ℕ
  pub last_activity : ℕ
  pub replay_log : List SseEvent
  pub owner : Option Identity
  pub request_auth : OrderedMap RequestId Identity

pub data Effect : Type 0 where
  disposes_server : ℕ → Effect
  closes_writer : ℕ → Effect
  calls_on_delete : (session_id : String) → Effect

pub record SessionManager : Type 0 where
  pub sessions : OrderedMap String Session
  pub max_sessions : ℕ
  pub session_timeout_ms : ℕ
  -- Sessions whose server is being disposed of, after which `delete` goes on.
  pub disposing : List Session
  pub trace : List Effect

unfoldable pub new_manager : ℕ → ℕ → SessionManager
new_manager max_sessions timeout = record {
  sessions = [];
  max_sessions = max_sessions;
  session_timeout_ms = timeout;
  disposing = [];
  trace = [];
}

unfoldable pub new_session : String → ℕ → Option Identity → Session
new_session id now auth = record {
  session_id = id;
  server = none;
  post_streams = [];
  get_stream = none;
  last_activity = now;
  replay_log = [];
  owner = auth;
  request_auth = [];
}

pub data Created : Type 0 where
  created : Session → Created
  limit_reached : (max_sessions : ℕ) → Created

unfoldable pub create : String → ℕ → Option Identity → SessionManager → SessionManager × Created
unfolding new_session
create id now auth m =
    if leb m.max_sessions (length m.sessions) then (m, limit_reached m.max_sessions) else (
      record m { sessions = set m.sessions id (new_session id now auth) },
      created (new_session id now auth),
    )

-- A session after `lastActivity = Date.now()`.
unfoldable pub touch_found : Option Session → String → ℕ → SessionManager → SessionManager
touch_found none id now m = m
touch_found (some s) id now m = record m {
  sessions = set m.sessions id (record s { last_activity = now });
}

unfoldable pub touch : String → ℕ → SessionManager → SessionManager
unfolding touch_found
touch id now m = touch_found (get m.sessions id) id now m

-- The writers of the open streams, closed in the order of their requests.
unfoldable pub close_writers : OrderedMap RequestId ℕ → List Effect → List Effect
close_writers [] t = t
close_writers ((id, writer) ∷ rest) t = close_writers rest (closes_writer writer ∷ t)

unfoldable pub close_stream : Option ℕ → List Effect → List Effect
close_stream none t = t
close_stream (some writer) t = closes_writer writer ∷ t

-- `delete` after the server's disposal.
unfoldable pub release : Session → SessionManager → SessionManager
unfolding close_writers close_stream
release s m = record m {
  trace =
      calls_on_delete s.session_id
      ∷ close_stream s.get_stream (close_writers s.post_streams m.trace);
}

-- `delete` before the server's disposal, and on to the end where there is no server.
unfoldable pub dispose_server : Option ℕ → Session → SessionManager → SessionManager
unfolding release
dispose_server none s m = release s m
dispose_server (some server) s m = record m {
  disposing = m.disposing ++ s ∷ [];
  trace = disposes_server server ∷ m.trace;
}

unfoldable pub delete_found : Option Session → String → SessionManager → SessionManager
unfolding dispose_server
delete_found none id m = m
delete_found (some s) id m =
    dispose_server s.server s (record m { sessions = delete m.sessions id })

unfoldable pub delete_session : String → SessionManager → SessionManager
unfolding delete_found
delete_session id m = delete_found (get m.sessions id) id m

-- The disposal of the oldest server succeeds, or throws.
unfoldable pub disposed : Bool → List Session → SessionManager → SessionManager
unfolding release
disposed ok [] m = m
disposed ok (s ∷ rest) m = let v = record m { disposing = rest } in if ok then release s v else v

unfoldable pub is_idle : ℕ → ℕ → Session → Bool
is_idle timeout now s = ltb timeout (now - s.last_activity)

-- The loop of `#cleanup` over the entries of the map.
unfoldable pub cleanup_each : OrderedMap String Session → ℕ → SessionManager → SessionManager
unfolding delete_session is_idle
cleanup_each [] now m = m
cleanup_each ((id, s) ∷ rest) now m =
    cleanup_each rest now (if is_idle m.session_timeout_ms now s then delete_session id m else m)

unfoldable pub cleanup : ℕ → SessionManager → SessionManager
unfolding cleanup_each
cleanup now m = cleanup_each m.sessions now m

-- The loop of `dispose` over a snapshot of the ids.
unfoldable pub delete_each : OrderedMap String Session → SessionManager → SessionManager
unfolding delete_session
delete_each [] m = m
delete_each ((id, s) ∷ rest) m = delete_each rest (delete_session id m)

unfoldable pub dispose : SessionManager → SessionManager
unfolding delete_each
dispose m = delete_each m.sessions m

unfoldable pub same_optional : Option String → Option String → Bool
same_optional none none = true
same_optional (some a) (some b) = a === b
same_optional _ _ = false

unfoldable pub is_owner : Option Identity → Option Identity → Bool
unfolding same_optional
is_owner none none = true
is_owner (some owner) (some auth) =
    same_optional owner.issuer auth.issuer && owner.subject === auth.subject
is_owner _ _ = false

unfoldable pub is_session_owner : Session → Option Identity → Bool
unfolding is_owner
is_session_owner s auth = is_owner s.owner auth

unfoldable pub append_replay : Session → SseEvent → ℕ → Session
append_replay s event cap =
    let log = s.replay_log ++ event ∷ [] in
    if ltb cap (length log)
    then record s { replay_log = drop (length log - cap) log }
    else record s { replay_log = log }

unfoldable pub or_everything : List SseEvent → Option (List SseEvent) → List SseEvent
or_everything log none = log
or_everything log (some events) = events

unfoldable pub events_after : Session → String → List SseEvent
unfolding or_everything events_past
events_after s last_event_id = or_everything s.replay_log (events_past last_event_id s.replay_log)

-- What can happen to a manager.
pub data Event : Type 0 where
  creates : (id : String) (now : ℕ) → Option Identity → Event
  touches : String → (now : ℕ) → Event
  deletes : String → Event
  disposal_ends : (ok : Bool) → Event
  cleans_up : (now : ℕ) → Event
  disposes : Event
  -- What the handler does with a session that it found: its server is made, a GET stream takes the
  -- place of the one before, a POST stream opens for a request and ends with the response, and a
  -- stream records an event.
  gets_server : String → (server : ℕ) → Event
  opens_get : String → (writer : ℕ) → Event
  opens_post : String → RequestId → Option Identity → (writer : ℕ) → Event
  ends_post : String → RequestId → Event
  records : String → SseEvent → (cap : ℕ) → Event

unfoldable pub end_post_found : Option ℕ → RequestId → Session → List Effect → Session × List Effect
end_post_found none request s t = (s, t)
end_post_found (some writer) request s t =
    (record s { post_streams = delete s.post_streams request }, closes_writer writer ∷ t)

unfoldable pub record_auth :
    Option Identity → RequestId → OrderedMap RequestId Identity → OrderedMap RequestId Identity
record_auth none request m = m
record_auth (some auth) request m = set m request auth

-- What the handler makes of the session, and of the trace.
unfoldable pub attach : Event → Session → List Effect → Session × List Effect
unfolding close_stream append_replay end_post_found record_auth
attach (gets_server id server) s t = (record s { server = some server }, t)
attach (opens_get id writer) s t =
    (record s { get_stream = some writer }, close_stream s.get_stream t)
attach (opens_post id request auth writer) s t =
    let v = record s { request_auth = record_auth auth request s.request_auth } in
    (record v { post_streams = set s.post_streams request writer }, t)
attach (ends_post id request) s t =
    let v = record s { request_auth = delete s.request_auth request } in
    end_post_found (get s.post_streams request) request v t
attach (records id event cap) s t = (append_replay s event cap, t)
attach _ s t = (s, t)

unfoldable pub attach_found : Option Session → Event → String → SessionManager → SessionManager
unfolding attach
attach_found none e id m = m
attach_found (some s) e id m =
    let v = attach e s m.trace in record m { sessions = set m.sessions id v.0; trace = v.1 }

unfoldable pub attach_to : String → Event → SessionManager → SessionManager
unfolding attach_found
attach_to id e m = attach_found (get m.sessions id) e id m

unfoldable pub step : SessionManager → Event → SessionManager
unfolding create touch delete_session disposed cleanup dispose attach_to
step m (creates id now auth) = (create id now auth m).0
step m (touches id now) = touch id now m
step m (deletes id) = delete_session id m
step m (disposal_ends ok) = disposed ok m.disposing m
step m (cleans_up now) = cleanup now m
step m disposes = dispose m
step m (gets_server id server) = attach_to id (gets_server id server) m
step m (opens_get id writer) = attach_to id (opens_get id writer) m
step m (opens_post id request auth writer) = attach_to id (opens_post id request auth writer) m
step m (ends_post id request) = attach_to id (ends_post id request) m
step m (records id event cap) = attach_to id (records id event cap) m

unfoldable pub run : SessionManager → List Event → SessionManager
unfolding step
run m [] = m
run m (e ∷ es) = run (step m e) es
