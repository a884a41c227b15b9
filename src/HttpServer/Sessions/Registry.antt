-- ===== src/HttpServer/Sessions/Registry.antt =====
-- How many sessions there are, and which of them the manager removes.
use mokei.Common.{
  ℕ, suc, ◌≤◌, ◌≡◌, refl, sym, ap, subst, ◌∙◌, String, Option, none, some, List, [], ◌∷◌, Bool,
  true, false, arith, length, leb, string_key, is_some, if◌then◌else◌,
}
use mokei.Common.OrderedMap.{
  OrderedMap, get, has, set, delete, HasDistinctKeys, has-get, set-HasDistinctKeys,
  delete-HasDistinctKeys, length-delete_le, delete_of_missing,
}
use mokei.HttpServer.Sessions.{
  Session, SessionManager, Identity, Created, Event, creates, touches, deletes, disposal_ends,
  cleans_up, disposes, new_manager, new_session, created, limit_reached, create, touch_found, touch,
  release, dispose_server, delete_found, delete_session, disposed, is_idle, cleanup_each, cleanup,
  delete_each, dispose, step, run, attach, attach_found, attach_to, gets_server, opens_get,
  opens_post, ends_post, records,
}

length-set_le :
    (m : OrderedMap String Session) (id : String) (s : Session)
    → length (set m id s) ≤ suc (length m)
unfolding set
length-set_le [] id s = omega arith
length-set_le ((c, w) ∷ m) id s = ground (arith, length-set_le m id s)

length-set_present :
    (m : OrderedMap String Session) (id : String) (s : Session)
    → has m id ≡ true
    → length (set m id s) ≡ length m
unfolding set has
length-set_present [] id s h = ground arith
length-set_present ((c, w) ∷ m) id s h = ground (arith, length-set_present m id s)

pub record IsValid (m : SessionManager) : Type 0 where
  pub bounded : length m.sessions ≤ m.max_sessions
  pub distinct : HasDistinctKeys m.sessions

-- What a removal leaves of a manager.
pub record Removes (id : String) (m v : SessionManager) : Type 0 where
  pub sessions_is : v.sessions ≡ delete m.sessions id
  pub max_is : v.max_sessions ≡ m.max_sessions
  pub timeout_is : v.session_timeout_ms ≡ m.session_timeout_ms

pub delete_session-Removes : (id : String) (m : SessionManager) → Removes id m (delete_session id m)
unfolding delete_session dispose_server release delete_found
delete_session-Removes id m = go (get m.sessions id) refl
  where
    server :
        (o : Option ℕ) (s : Session)
        → Removes id m (dispose_server o s (record m { sessions = delete m.sessions id }))
    server none s = record { sessions_is = refl; max_is = refl; timeout_is = refl }
    server (some n) s = record { sessions_is = refl; max_is = refl; timeout_is = refl }

    go : (o : Option Session) → get m.sessions id ≡ o → Removes id m (delete_found o id m)
    go none h = record {
      sessions_is = sym (delete_of_missing m.sessions id (has-get m.sessions id ∙ ap is_some h));
      max_is = refl;
      timeout_is = refl;
    }
    go (some s) h = server s.server s

Removes-IsValid : (id : String) (m v : SessionManager) → Removes id m v → IsValid m → IsValid v
Removes-IsValid id m v r h = record {
  bounded =
      ground (arith, r.max_is, ap length r.sessions_is, length-delete_le m.sessions id, h.bounded);
  distinct =
      subst HasDistinctKeys (sym r.sessions_is) (delete-HasDistinctKeys m.sessions id h.distinct);
}

pub delete_session-IsValid :
    (id : String) (m : SessionManager) → IsValid m → IsValid (delete_session id m)
delete_session-IsValid id m h =
    Removes-IsValid id m (delete_session id m) (delete_session-Removes id m) h

cleanup_each-IsValid :
    (rest : OrderedMap String Session) (now : ℕ) (m : SessionManager)
    → IsValid m
    → IsValid (cleanup_each rest now m)
unfolding cleanup_each
cleanup_each-IsValid [] now m h = h
cleanup_each-IsValid ((id, s) ∷ rest) now m h =
    cleanup_each-IsValid rest now _ (go (is_idle m.session_timeout_ms now s))
  where
    go : (b : Bool) → IsValid (if b then delete_session id m else m)
    go true = delete_session-IsValid id m h
    go false = h

delete_each-IsValid :
    (rest : OrderedMap String Session) (m : SessionManager)
    → IsValid m
    → IsValid (delete_each rest m)
unfolding delete_each
delete_each-IsValid [] m h = h
delete_each-IsValid ((id, s) ∷ rest) m h =
    delete_each-IsValid rest (delete_session id m) (delete_session-IsValid id m h)

create-IsValid :
    (id : String) (now : ℕ) (auth : Option Identity) (m : SessionManager)
    → IsValid m
    → IsValid (create id now auth m).0
unfolding create
create-IsValid id now auth m h = go (leb m.max_sessions (length m.sessions)) refl
  where
    go :
        (b : Bool)
        → leb m.max_sessions (length m.sessions) ≡ b
        → let r : SessionManager × Created = if b then (m, limit_reached m.max_sessions) else (
          record m { sessions = set m.sessions id (new_session id now auth) },
          created (new_session id now auth),
        ) in
          IsValid r.0
    go true q = h
    go false q = record {
      bounded = ground (arith, length-set_le m.sessions id (new_session id now auth), q);
      distinct = set-HasDistinctKeys m.sessions id (new_session id now auth) h.distinct;
    }

touch-IsValid : (id : String) (now : ℕ) (m : SessionManager) → IsValid m → IsValid (touch id now m)
unfolding touch touch_found
touch-IsValid id now m h = go (get m.sessions id) refl
  where
    go : (o : Option Session) → get m.sessions id ≡ o → IsValid (touch_found o id now m)
    go none q = h
    go (some s) q = record {
      bounded = ground (
        arith,
        length-set_present m.sessions id (record s { last_activity = now })
            (has-get m.sessions id ∙ ap is_some q),
        h.bounded,
      );
      distinct = set-HasDistinctKeys m.sessions id (record s { last_activity = now }) h.distinct;
    }

attach_to-IsValid :
    (id : String) (e : Event) (m : SessionManager) → IsValid m → IsValid (attach_to id e m)
unfolding attach_to attach_found
attach_to-IsValid id e m h = go (get m.sessions id) refl
  where
    go : (o : Option Session) → get m.sessions id ≡ o → IsValid (attach_found o e id m)
    go none q = h
    go (some s) q = record {
      bounded = ground (
        arith,
        length-set_present m.sessions id (attach e s m.trace).0
            (has-get m.sessions id ∙ ap is_some q),
        h.bounded,
      );
      distinct = set-HasDistinctKeys m.sessions id (attach e s m.trace).0 h.distinct;
    }

disposed-IsValid :
    (ok : Bool) (rest : List Session) (m : SessionManager)
    → IsValid m
    → IsValid (disposed ok rest m)
unfolding disposed release
disposed-IsValid ok [] m h = h
disposed-IsValid true (s ∷ rest) m h = record { bounded = h.bounded; distinct = h.distinct }
disposed-IsValid false (s ∷ rest) m h = record { bounded = h.bounded; distinct = h.distinct }

step-IsValid : (m : SessionManager) (e : Event) → IsValid m → IsValid (step m e)
unfolding step cleanup dispose
step-IsValid m (creates id now auth) h = create-IsValid id now auth m h
step-IsValid m (touches id now) h = touch-IsValid id now m h
step-IsValid m (deletes id) h = delete_session-IsValid id m h
step-IsValid m (disposal_ends ok) h = disposed-IsValid ok m.disposing m h
step-IsValid m (cleans_up now) h = cleanup_each-IsValid m.sessions now m h
step-IsValid m disposes h = delete_each-IsValid m.sessions m h
step-IsValid m (gets_server id server) h = attach_to-IsValid id (gets_server id server) m h
step-IsValid m (opens_get id writer) h = attach_to-IsValid id (opens_get id writer) m h
step-IsValid m (opens_post id q auth writer) h =
    attach_to-IsValid id (opens_post id q auth writer) m h
step-IsValid m (ends_post id q) h = attach_to-IsValid id (ends_post id q) m h
step-IsValid m (records id event cap) h = attach_to-IsValid id (records id event cap) m h

run-IsValid : (m : SessionManager) (es : List Event) → IsValid m → IsValid (run m es)
unfolding run
run-IsValid m [] h = h
run-IsValid m (e ∷ es) h = run-IsValid (step m e) es (step-IsValid m e h)

-- Over any history of a new manager there are at most as many sessions as its limit allows, and no
-- two of them under the same id.
pub sessions-IsValid :
    (max_sessions timeout : ℕ) (es : List Event)
    → IsValid (run (new_manager max_sessions timeout) es)
unfolding new_manager
sessions-IsValid max_sessions timeout es =
    run-IsValid (new_manager max_sessions timeout) es
      (record { bounded = omega arith; distinct = tt })
