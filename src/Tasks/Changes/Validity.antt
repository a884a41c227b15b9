-- ===== src/Tasks/Changes/Validity.antt =====
-- Every change of a task's record keeps the record valid.
use mokei.Common.{
  ℕ, suc, ◌≡◌, refl, sym, subst, String, Option, none, some, List, [], ◌∷◌, Bool, true, false,
  is_some, length, string_key, arith, if◌then◌else◌, ◌==◌,
}
use mokei.Common.OrderedMap.{OrderedMap, has}
use mokei.Tasks.Record.{
  TaskRecord, InputRecord, InputRequest, withdrawn, working, cancelled, settle_latest, open_input,
  is_terminal, missing_capability,
}
use mokei.Tasks.Changes.{
  Action, cancels, interrupts, completes, fails, sets_status, checkpoints, requests_input,
  withdraws, answers, Change, unchanged, patched, raises, covers, apply, applied, change,
  unless_terminal, request_input, input_as, new_input, declared_input, aborted, outstanding,
  find_same, find_reused, withdraw, withdraw_as, answer, apply_each,
}
use mokei.Tasks.Changes.History.{
  IsValid, last_open, latest-IsSound, history-append, last_open-append,
}
use mokei.Tasks.Changes.Opened.{OpenIs, open_input-OpenIs, none_open}
use mokei.Tasks.Changes.Answering.{ValidAfter, if-ValidAfter, settled-IsValid, answer_as-ValidAfter}

withdraw_as-ValidAfter :
    (id : ℕ) (o : Option InputRecord) (r : TaskRecord)
    → IsValid r
    → OpenIs r o
    → ValidAfter r (withdraw_as id o r)
unfolding withdraw_as
withdraw_as-ValidAfter id none r v p = tt
withdraw_as-ValidAfter id (some e) r v p =
    if-ValidAfter r (e.id == id)
      (patched (λ q. record q {
        status = working;
        inputs = settle_latest r.inputs (record e { outcome = some withdrawn });
      }))
      unchanged
      (settled-IsValid r
        (record r {
          status = working;
          inputs = settle_latest r.inputs (record e { outcome = some withdrawn });
        })
        e (record e { outcome = some withdrawn }) v p refl
        (record { asked = (latest-IsSound 1 r.inputs e v.history p.latest_is).asked; fits = tt })
        refl refl)
      tt

declared_input-ValidAfter :
    (key : String) (request : InputRequest) (rest : OrderedMap String InputRequest)
    (missing : Option String) (r : TaskRecord)
    → IsValid r
    → last_open r.inputs ≡ false
    → ValidAfter r (declared_input ((key, request) ∷ rest) missing r)
unfolding declared_input covers has
declared_input-ValidAfter key request rest (some k) r v l = tt
declared_input-ValidAfter key request rest none r v l =
    let e : InputRecord = record {
      id = suc (length r.inputs);
      requests = (key, request) ∷ rest;
      responses = [];
      outcome = none;
    } in
    record {
      history =
          history-append 1 r.inputs e v.history l (omega arith)
            (record { asked = λ k h. refl; fits = refl });
      fits = last_open-append r.inputs e;
    }

input_if :
    (is_aborted : Bool) (key : String) (request : InputRequest)
    (rest : OrderedMap String InputRequest) (r : TaskRecord) (b : Bool)
    → IsValid r
    → (b ≡ false → last_open r.inputs ≡ false)
    → ValidAfter r (
        if is_aborted
        then raises aborted
        else if b
        then raises outstanding
        else declared_input
            ((key, request) ∷ rest)
            (missing_capability ((key, request) ∷ rest) r.capabilities)
            r)
input_if true key request rest r b v l = tt
input_if false key request rest r true v l = tt
input_if false key request rest r false v l =
    declared_input-ValidAfter key request rest
      (missing_capability ((key, request) ∷ rest) r.capabilities) r v (l refl)

new_input-ValidAfter :
    (is_aborted : Bool) (key : String) (request : InputRequest)
    (rest : OrderedMap String InputRequest) (reused : Option String) (r : TaskRecord)
    → IsValid r
    → is_terminal r ≡ false
    → ValidAfter r (new_input is_aborted ((key, request) ∷ rest) reused r)
unfolding new_input open_input
new_input-ValidAfter is_aborted key request rest (some k) r v t = tt
new_input-ValidAfter is_aborted key request rest none r v t =
    input_if is_aborted key request rest r (is_some (open_input r)) v
      (none_open r.status r.inputs v.fits t)

input_as-ValidAfter :
    (is_aborted : Bool) (key : String) (request : InputRequest)
    (rest : OrderedMap String InputRequest) (same : Option InputRecord) (r : TaskRecord)
    → IsValid r
    → is_terminal r ≡ false
    → ValidAfter r (input_as is_aborted ((key, request) ∷ rest) same r)
unfolding input_as
input_as-ValidAfter is_aborted key request rest (some e) r v t = tt
input_as-ValidAfter is_aborted key request rest none r v t =
    new_input-ValidAfter is_aborted key request rest (find_reused ((key, request) ∷ rest) r.inputs)
      r v t

-- A change under the guard on terminal records.
unless_terminal-ValidAfter :
    (r : TaskRecord) (c : Change) (b : Bool)
    → is_terminal r ≡ b
    → (is_terminal r ≡ false → ValidAfter r c)
    → ValidAfter r (unless_terminal r c)
unfolding unless_terminal
unless_terminal-ValidAfter r c true h p =
    subst (λ b. ValidAfter r (if b then unchanged else c)) (sym h) tt
unless_terminal-ValidAfter r c false h p =
    subst (λ b. ValidAfter r (if b then unchanged else c)) (sym h) (p h)

change-ValidAfter : (a : Action) (r : TaskRecord) → IsValid r → ValidAfter r (change a r)
unfolding change request_input withdraw answer
change-ValidAfter cancels r v =
    unless_terminal-ValidAfter r (patched (λ q. record q { status = cancelled })) (is_terminal r)
      refl (λ t. record { history = v.history; fits = tt })
change-ValidAfter interrupts r v =
    unless_terminal-ValidAfter r _ (is_terminal r) refl
      (λ t. record { history = v.history; fits = tt })
change-ValidAfter (completes x) r v =
    unless_terminal-ValidAfter r _ (is_terminal r) refl
      (λ t. record { history = v.history; fits = tt })
change-ValidAfter (fails x) r v =
    unless_terminal-ValidAfter r _ (is_terminal r) refl
      (λ t. record { history = v.history; fits = tt })
change-ValidAfter (sets_status x) r v =
    unless_terminal-ValidAfter r _ (is_terminal r) refl
      (λ t. record { history = v.history; fits = v.fits })
change-ValidAfter (checkpoints x) r v =
    unless_terminal-ValidAfter r _ (is_terminal r) refl
      (λ t. record { history = v.history; fits = v.fits })
change-ValidAfter (requests_input is_aborted []) r v = tt
change-ValidAfter (requests_input is_aborted ((key, request) ∷ rest)) r v =
    unless_terminal-ValidAfter r (request_input is_aborted ((key, request) ∷ rest) r)
      (is_terminal r) refl
      (input_as-ValidAfter is_aborted key request rest (find_same ((key, request) ∷ rest) r.inputs)
        r v)
change-ValidAfter (withdraws id) r v =
    withdraw_as-ValidAfter id (open_input r) r v (open_input-OpenIs r)
change-ValidAfter (answers responses) r v =
    answer_as-ValidAfter responses (open_input r) r v (open_input-OpenIs r)

applied-IsValid : (r : TaskRecord) (c : Change) → IsValid r → ValidAfter r c → IsValid (applied r c)
unfolding applied
applied-IsValid r unchanged v w = v
applied-IsValid r (patched patch) v w = w
applied-IsValid r (raises e) v w = v

-- Every sequence of changes of a valid record leaves a valid record: its input requests are numbered
-- from 1, only what was asked is answered, an answered request has all its answers and an open one
-- lacks some, only the last may be open, it is open in status `input_required`, and none is open in
-- status `working`.
pub apply_each-IsValid :
    (actions : List Action) (r : TaskRecord) → IsValid r → IsValid (apply_each actions r)
unfolding apply_each apply
apply_each-IsValid [] r v = v
apply_each-IsValid (a ∷ rest) r v =
    apply_each-IsValid rest (apply a r) (applied-IsValid r (change a r) v (change-ValidAfter a r v))
