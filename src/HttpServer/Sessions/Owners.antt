-- ===== src/HttpServer/Sessions/Owners.antt =====
-- Whose requests a session answers.
use mokei.Common.{
  ℕ, ◌≡◌, refl, String, Option, none, some, Bool, true, false, arith, string_key, if◌then◌else◌,
  leb, length, ◌↔◌,
}
use mokei.Common.OrderedMap.{set}
use mokei.HttpServer.Sessions.{
  Session, SessionManager, Identity, Created, created, limit_reached, new_session, create,
  same_optional, is_owner, is_session_owner,
}

same_optional-eq : (a b : Option String) → same_optional a b ≡ true → a ≡ b
unfolding same_optional
same_optional-eq none none h = refl
same_optional-eq (some a) (some b) h = ground arith
same_optional-eq none (some b) h = cc
same_optional-eq (some a) none h = cc

same_optional_refl : (a : Option String) → same_optional a a ≡ true
unfolding same_optional
same_optional_refl none = refl
same_optional_refl (some a) = ground arith

is_owner-eq : (a b : Option Identity) → is_owner a b ≡ true → a ≡ b
unfolding is_owner
is_owner-eq none none h = refl
is_owner-eq (some a) (some b) h = ground (arith, same_optional-eq a.issuer b.issuer)
is_owner-eq none (some b) h = cc
is_owner-eq (some a) none h = cc

is_owner_refl : (a : Option Identity) → is_owner a a ≡ true
unfolding is_owner
is_owner_refl none = refl
is_owner_refl (some a) = ground (arith, same_optional_refl a.issuer)

created-owner :
    (id : String) (now : ℕ) (auth : Option Identity) (m : SessionManager) (s : Session)
    → (create id now auth m).1 ≡ created s
    → s.owner ≡ auth
unfolding create new_session
created-owner id now auth m s = go (leb m.max_sessions (length m.sessions))
  where
    go :
        (b : Bool)
        → let r : SessionManager × Created = if b then (m, limit_reached m.max_sessions) else (
          record m { sessions = set m.sessions id (new_session id now auth) },
          created (new_session id now auth),
        ) in
          r.1 ≡ created s → s.owner ≡ auth
    go true h = cc
    go false h = ground (arith, h)

-- A session that was created for some identity, or for none, answers a request exactly when the
-- request has the same issuer and subject, or has no identity either.
pub create-is_session_owner :
    (id : String) (now : ℕ) (auth other : Option Identity) (m : SessionManager) (s : Session)
    → (create id now auth m).1 ≡ created s
    → (is_session_owner s other ≡ true) ↔ (other ≡ auth)
unfolding is_session_owner
create-is_session_owner id now auth other m s h =
    let o = created-owner id now auth m s h in
    (
      λ k. ground (arith, o, is_owner-eq s.owner other k),
      λ k. ground (arith, o, k, is_owner_refl s.owner),
    )
