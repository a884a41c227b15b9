-- ===== src/HttpServer/Sessions/Disposal.antt =====
-- What `#cleanup` of packages/http-server/src/session.ts does with the servers of the sessions that it
-- removes.
use mokei.Common.{
  ℕ, ◌+◌, subst, ◌≡◌, refl, sym, ap, ◌∙◌, String, Option, none, some, List, [], ◌∷◌, ◌++◌, Bool,
  true, false, arith, leb, string_key, if◌then◌else◌, is_some, append_assoc, append-nil,
}
use mokei.Common.OrderedMap.{OrderedMap, get, has, delete, HasDistinctKeys, get-delete}
use mokei.HttpServer.Sessions.{
  Session, SessionManager, dispose_server, delete_found, release, delete_session, is_idle,
  cleanup_each, cleanup,
}
use mokei.HttpServer.Sessions.Registry.{IsValid, delete_session-Removes, delete_session-IsValid}

-- The sessions with a server among those whose last activity is more than the timeout ago.
unfoldable pub stale_with_server : ℕ → ℕ → OrderedMap String Session → List Session
stale_with_server timeout now [] = []
stale_with_server timeout now ((id, s) ∷ rest) =
    let others = stale_with_server timeout now rest in
    if leb now (s.last_activity + timeout)
    then others
    else if is_some s.server
    then s ∷ others
    else others

-- The entries of a list are those of a map.
abbrev AreFound : OrderedMap String Session → OrderedMap String Session → Type 0
AreFound m [] = Unit {0}
AreFound m ((id, s) ∷ rest) = (get m id ≡ some s) × AreFound m rest

AreFound-cons :
    (m rest : OrderedMap String Session) (id : String) (s : Session)
    → has rest id ≡ false
    → AreFound m rest
    → AreFound ((id, s) ∷ m) rest
unfolding get has
AreFound-cons m [] id s h f = tt
AreFound-cons m ((k, v) ∷ rest) id s h f =
    (ground (arith, f.0, h), AreFound-cons m rest id s (ground (arith, h)) f.1)

all_AreFound : (m : OrderedMap String Session) → HasDistinctKeys m → AreFound m m
unfolding get
all_AreFound [] d = tt
all_AreFound ((id, s) ∷ m) d = (ground arith, AreFound-cons m m id s d.0 (all_AreFound m d.1))

AreFound-delete :
    (m rest : OrderedMap String Session) (id : String)
    → HasDistinctKeys m
    → has rest id ≡ false
    → AreFound m rest
    → AreFound (delete m id) rest
unfolding has
AreFound-delete m [] id d h f = tt
AreFound-delete m ((k, v) ∷ rest) id d h f = (
  get-delete m id k d ∙ ground (arith, f.0, h),
  AreFound-delete m rest id d (ground (arith, h)) f.1,
)

-- The session, where it has a server.
with_server : Session → List Session
with_server s = if is_some s.server then s ∷ [] else []

delete_session-disposing :
    (id : String) (s : Session) (m : SessionManager)
    → get m.sessions id ≡ some s
    → (delete_session id m).disposing ≡ m.disposing ++ with_server s
unfolding delete_session delete_found with_server dispose_server release
delete_session-disposing id s m h = ap (λ o. (delete_found o id m).disposing) h ∙ go s.server
  where
    go :
        (o : Option ℕ)
        → (dispose_server o s (record m { sessions = delete m.sessions id })).disposing
          ≡ m.disposing ++ (if is_some o then s ∷ [] else [])
    go none = sym (append-nil m.disposing)
    go (some n) = refl

cleanup_each-disposing :
    (rest : OrderedMap String Session) (now : ℕ) (m : SessionManager)
    → IsValid m
    → HasDistinctKeys rest
    → AreFound m.sessions rest
    → (cleanup_each rest now m).disposing
      ≡ m.disposing ++ stale_with_server m.session_timeout_ms now rest
unfolding cleanup_each stale_with_server is_idle with_server
cleanup_each-disposing [] now m h d f = sym (append-nil m.disposing)
cleanup_each-disposing ((id, s) ∷ rest) now m h d f =
    go (is_idle m.session_timeout_ms now s) refl (λ v. cleanup_each-disposing rest now v)
  where
    others : List Session
    others = stale_with_server m.session_timeout_ms now rest

    joined : (b : Bool) → (if b then s ∷ [] else []) ++ others ≡ (if b then s ∷ others else others)
    joined true = refl
    joined false = refl

    go :
        (b : Bool)
        → is_idle m.session_timeout_ms now s ≡ b
        → ((v : SessionManager)
            → IsValid v
            → HasDistinctKeys rest
            → AreFound v.sessions rest
            → (cleanup_each rest now v).disposing
              ≡ v.disposing ++ stale_with_server v.session_timeout_ms now rest)
        → (cleanup_each rest now (if b then delete_session id m else m)).disposing
          ≡ m.disposing
            ++ (if leb now (s.last_activity + m.session_timeout_ms)
                then others
                else if is_some s.server
                then s ∷ others
                else others)
    go false e ih =
        let kept : leb now (s.last_activity + m.session_timeout_ms) ≡ true = ground (arith, e) in
        ih m h d.1 f.1
        ∙ sym (
            ap
              (λ c.
                m.disposing
                ++ (if c then others else if is_some s.server then s ∷ others else others))
              kept)
    go true e ih =
        let r = delete_session-Removes id m in
        let gone : leb now (s.last_activity + m.session_timeout_ms) ≡ false = ground (arith, e) in
        let found = AreFound-delete m.sessions rest id h.distinct d.0 f.1 in
        ih (delete_session id m) (delete_session-IsValid id m h) d.1
          (subst (λ x. AreFound x rest) (sym r.sessions_is) found)
        ∙ ap (λ t. (delete_session id m).disposing ++ stale_with_server t now rest) r.timeout_is
        ∙ ap (λ l. l ++ others) (delete_session-disposing id s m f.0)
        ∙ append_assoc m.disposing (with_server s) others
        ∙ ap (λ l. m.disposing ++ l) (joined (is_some s.server))
        ∙ sym (
            ap
              (λ c.
                m.disposing
                ++ (if c then others else if is_some s.server then s ∷ others else others))
              gone)

-- A cleanup hands on the servers of the sessions that it removes, and no others.
pub cleanup-disposing :
    (now : ℕ) (m : SessionManager)
    → IsValid m
    → (cleanup now m).disposing
      ≡ m.disposing ++ stale_with_server m.session_timeout_ms now m.sessions
unfolding cleanup
cleanup-disposing now m h =
    cleanup_each-disposing m.sessions now m h h.distinct (all_AreFound m.sessions h.distinct)
