-- ===== src/HttpServer/Sessions/Cleaning.antt =====
-- Which sessions a cleanup and a disposal of packages/http-server/src/session.ts remove.
use mokei.Common.{
  ℕ, ◌+◌, leb, ◌≡◌, refl, ap, ◌∙◌, String, Option, none, some, List, [], ◌∷◌, Bool, true, false,
  arith, string_key, if◌then◌else◌, ◌||◌, ◌&&◌, ◌===◌,
}
use mokei.Common.OrderedMap.{OrderedMap, get, has, HasDistinctKeys, has-get, get-delete}
use mokei.HttpServer.Sessions.{
  Session, SessionManager, Event, new_manager, delete_session, is_idle, cleanup_each, cleanup,
  delete_each, dispose, run,
}
use mokei.HttpServer.Sessions.Disposal.{stale_with_server, cleanup-disposing}
use mokei.Common.{◌++◌}
use mokei.HttpServer.Sessions.Registry.{
  IsValid, delete_session-Removes, delete_session-IsValid, sessions-IsValid,
}

-- Whether a session stands under a key in a list of entries, and is idle.
idle_key : ℕ → ℕ → OrderedMap String Session → String → Bool
idle_key timeout now [] key = false
idle_key timeout now ((id, s) ∷ rest) key =
    (is_idle timeout now s && id === key) || idle_key timeout now rest key

-- What a cleanup leaves of a session: it stays until the timeout after its last activity is over.
abbrev pub still_used : ℕ → ℕ → Option Session → Option Session
still_used timeout now none = none
still_used timeout now (some s) = if leb now (s.last_activity + timeout) then some s else none

idle_key-has :
    (timeout now : ℕ) (rest : OrderedMap String Session) (key : String)
    → has rest key ≡ false
    → idle_key timeout now rest key ≡ false
unfolding idle_key has
idle_key-has timeout now [] key h = refl
idle_key-has timeout now ((id, s) ∷ rest) key h = ground (arith, idle_key-has timeout now rest key)

idle_key-get :
    (timeout now : ℕ) (rest : OrderedMap String Session) (key : String)
    → HasDistinctKeys rest
    → (if idle_key timeout now rest key then none else get rest key)
      ≡ still_used timeout now (get rest key)
unfolding idle_key get is_idle
idle_key-get timeout now [] key d = refl
idle_key-get timeout now ((id, s) ∷ rest) key d =
    ground (arith, idle_key-get timeout now rest key d.1, idle_key-has timeout now rest key)

get-cleanup_each :
    (rest : OrderedMap String Session) (now : ℕ) (m : SessionManager) (key : String)
    → IsValid m
    → get (cleanup_each rest now m).sessions key
      ≡ (if idle_key m.session_timeout_ms now rest key then none else get m.sessions key)
unfolding cleanup_each idle_key
get-cleanup_each [] now m key h = refl
get-cleanup_each ((id, s) ∷ rest) now m key h =
    go (is_idle m.session_timeout_ms now s) (λ v. get-cleanup_each rest now v key)
  where
    go :
        (b : Bool)
        → ((v : SessionManager)
            → IsValid v
            → get (cleanup_each rest now v).sessions key
              ≡ (if idle_key v.session_timeout_ms now rest key then none else get v.sessions key))
        → get (cleanup_each rest now (if b then delete_session id m else m)).sessions key ≡ (
            if (b && id === key) || idle_key m.session_timeout_ms now rest key
            then none
            else get m.sessions key)
    go false ih = ih m h
    go true ih =
        let r = delete_session-Removes id m in
        ih (delete_session id m) (delete_session-IsValid id m h)
        ∙ ground (
          arith,
          r.timeout_is,
          ap (λ x. get x key) r.sessions_is,
          get-delete m.sessions id key h.distinct,
        )

get-delete_each :
    (rest : OrderedMap String Session) (m : SessionManager) (key : String)
    → IsValid m
    → get (delete_each rest m).sessions key ≡ (if has rest key then none else get m.sessions key)
unfolding delete_each has
get-delete_each [] m key h = refl
get-delete_each ((id, s) ∷ rest) m key h =
    let r = delete_session-Removes id m in
    get-delete_each rest (delete_session id m) key (delete_session-IsValid id m h)
    ∙ ground (arith, ap (λ x. get x key) r.sessions_is, get-delete m.sessions id key h.distinct)

nothing_found : (m : OrderedMap String Session) → ((key : String) → get m key ≡ none) → m ≡ []
unfolding get
nothing_found [] h = refl
nothing_found ((id, s) ∷ m) h = ground (arith, h id)

-- After any history of a new manager, a cleanup at some time leaves every session as it is whose last
-- activity is at most the timeout ago, and removes every other session; it has the servers of the
-- removed sessions disposed of, in the order of the sessions and after those that are being disposed
-- of, and no others; and a disposal removes all sessions.
pub get-cleanup :
    (max_sessions timeout : ℕ) (es : List Event) (now : ℕ) (id : String)
    → let m = run (new_manager max_sessions timeout) es in
      (get (cleanup now m).sessions id ≡ still_used m.session_timeout_ms now (get m.sessions id))
      × ((cleanup now m).disposing
          ≡ m.disposing ++ stale_with_server m.session_timeout_ms now m.sessions)
      × ((dispose m).sessions ≡ [])
unfolding cleanup dispose
get-cleanup max_sessions timeout es now id =
    let m = run (new_manager max_sessions timeout) es in
    let h : IsValid m = sessions-IsValid max_sessions timeout es in
    (
      get-cleanup_each m.sessions now m id h
          ∙ idle_key-get m.session_timeout_ms now m.sessions id h.distinct,
      cleanup-disposing now m h,
      nothing_found (delete_each m.sessions m).sessions
          (λ key. ground (arith, get-delete_each m.sessions m key h, has-get m.sessions key)),
    )
