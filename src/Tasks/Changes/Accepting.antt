-- ===== src/Tasks/Changes/Accepting.antt =====
-- The answers that `update`, packages/context-server/src/task-manager.ts, accepts were asked for.
use mokei.Common.{
  ◌≡◌, refl, ap, ◌∙◌, String, Option, none, some, [], ◌∷◌, Bool, true, false, is_some, string_key,
  arith, if◌then◌else◌,
}
use mokei.Common.OrderedMap.{OrderedMap, get, has, set, has-get, has-set}
use mokei.Tasks.Record.{InputRecord, InputRequest, InputResponse, response_matches}
use mokei.Tasks.Changes.{
  Accepted, accepts, rejects, accept_one, accept_each, accept_as, not_awaiting, kind_mismatch,
}

-- The answers that are accepted stay within what was asked.
abbrev pub Asked : InputRecord → Accepted → Type 0
Asked e (accepts m) = (key : String) → has e.requests key ≡ false → has m key ≡ false
Asked e (rejects error) = Unit {0}

if-Asked :
    (b : Bool) (e : InputRecord) (x y : Accepted)
    → Asked e x
    → Asked e y
    → Asked e (if b then x else y)
if-Asked true e x y p q = p
if-Asked false e x y p q = q

set-Asked :
    (e : InputRecord) (m : OrderedMap String InputResponse) (key : String)
    (response : InputResponse)
    → has e.requests key ≡ true
    → Asked e (accepts m)
    → Asked e (accepts (set m key response))
set-Asked e m key response h a k q = ground (arith, has-set m key k response, a k)

accept_as-Asked :
    (e : InputRecord) (m : OrderedMap String InputResponse) (key : String)
    (response : InputResponse) (o : Option InputRequest)
    → get e.requests key ≡ o
    → Asked e (accepts m)
    → Asked e (accept_as e m key response o)
unfolding accept_as
accept_as-Asked e m key response none h a = tt
accept_as-Asked e m key response (some request) h a =
    if-Asked (has e.responses key) e (rejects (not_awaiting key))
      (if response_matches request response
        then accepts (set m key response)
        else rejects (kind_mismatch key))
      tt
      (if-Asked (response_matches request response) e (accepts (set m key response))
        (rejects (kind_mismatch key))
        (set-Asked e m key response (has-get e.requests key ∙ ap is_some h) a) tt)

accept_one-Asked :
    (e : InputRecord) (m : OrderedMap String InputResponse) (key : String)
    (response : InputResponse)
    → Asked e (accepts m)
    → Asked e (accept_one e m key response)
unfolding accept_one
accept_one-Asked e m key response a = accept_as-Asked e m key response (get e.requests key) refl a

pub accept_each-Asked :
    (e : InputRecord) (rest : OrderedMap String InputResponse) (a : Accepted)
    → Asked e a
    → Asked e (accept_each e rest a)
unfolding accept_each
accept_each-Asked e rest (rejects x) a = tt
accept_each-Asked e [] (accepts m) a = a
accept_each-Asked e ((key, response) ∷ rest) (accepts m) a =
    accept_each-Asked e rest (accept_one e m key response) (accept_one-Asked e m key response a)
