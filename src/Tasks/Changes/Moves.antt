-- ===== src/Tasks/Changes/Moves.antt =====
-- What a change may do to the input requests of a record: nothing, add one, or settle the open one.
use mokei.Common.{
  ℕ, ◌≡◌, refl, ap, ◌∙◌, String, Option, none, some, [], ◌∷◌, ◌++◌, Bool, true, false, is_some,
  if◌then◌else◌, ◌==◌,
}
use mokei.Common.OrderedMap.{OrderedMap}
use mokei.Tasks.Record.{
  TaskRecord, InputRecord, InputRequest, InputResponse, answered, withdrawn, TaskStatus, working,
  input_required, completed, failed, cancelled, settle_latest, open_input, open_as, latest,
  needs_input, is_terminal, is_terminal_status, missing_capability,
}
use mokei.Tasks.Changes.{
  Action, cancels, interrupts, completes, fails, sets_status, checkpoints, requests_input,
  withdraws, answers, Change, unchanged, patched, raises, Accepted, accepts, rejects, accept_each,
  covers, apply, applied, change, unless_terminal, request_input, input_as, new_input,
  declared_input, aborted, outstanding, find_same, find_reused, withdraw, withdraw_as, answer,
  answer_as, answer_with, interrupted,
}
use mokei.Tasks.Changes.Opened.{IsOpen, OpenIs, open_input-OpenIs}

pub data Moves (r : TaskRecord) (s : TaskRecord) : Type 0 where
  same : s.inputs ≡ r.inputs → Moves r s
  adds : (e : InputRecord) → s.inputs ≡ r.inputs ++ e ∷ [] → Moves r s
  settles :
      (e f : InputRecord)
      → IsOpen r e
      → f.id ≡ e.id
      → s.inputs ≡ settle_latest r.inputs f
      → Moves r s

abbrev pub MovesBy : TaskRecord → Change → Type 0
MovesBy r unchanged = Unit {0}
MovesBy r (patched patch) = Moves r (patch r)
MovesBy r (raises e) = Unit {0}

if-MovesBy :
    (r : TaskRecord) (b : Bool) (x y : Change)
    → MovesBy r x
    → MovesBy r y
    → MovesBy r (if b then x else y)
if-MovesBy r true x y p q = p
if-MovesBy r false x y p q = q

unless_terminal-MovesBy :
    (r : TaskRecord) (c : Change) → MovesBy r c → MovesBy r (unless_terminal r c)
unfolding unless_terminal
unless_terminal-MovesBy r c p = if-MovesBy r (is_terminal r) unchanged c tt p

declared_input-MovesBy :
    (requests : OrderedMap String InputRequest) (missing : Option String) (r : TaskRecord)
    → MovesBy r (declared_input requests missing r)
unfolding declared_input
declared_input-MovesBy requests (some k) r = tt
declared_input-MovesBy requests none r = adds _ refl

new_input-MovesBy :
    (is_aborted : Bool) (requests : OrderedMap String InputRequest) (reused : Option String)
    (r : TaskRecord)
    → MovesBy r (new_input is_aborted requests reused r)
unfolding new_input
new_input-MovesBy is_aborted requests (some k) r = tt
new_input-MovesBy is_aborted requests none r =
    let declared = declared_input requests (missing_capability requests r.capabilities) r in
    if-MovesBy r is_aborted (raises aborted)
      (if is_some (open_input r) then raises outstanding else declared) tt
      (if-MovesBy r (is_some (open_input r)) (raises outstanding) declared tt
        (declared_input-MovesBy requests (missing_capability requests r.capabilities) r))

input_as-MovesBy :
    (is_aborted : Bool) (requests : OrderedMap String InputRequest) (found : Option InputRecord)
    (r : TaskRecord)
    → MovesBy r (input_as is_aborted requests found r)
unfolding input_as
input_as-MovesBy is_aborted requests (some e) r = tt
input_as-MovesBy is_aborted requests none r =
    new_input-MovesBy is_aborted requests (find_reused requests r.inputs) r

withdraw_as-MovesBy :
    (id : ℕ) (o : Option InputRecord) (r : TaskRecord) → OpenIs r o → MovesBy r (withdraw_as id o r)
unfolding withdraw_as
withdraw_as-MovesBy id none r p = tt
withdraw_as-MovesBy id (some e) r p =
    if-MovesBy r (e.id == id)
      (patched (λ q. record q {
        status = working;
        inputs = settle_latest r.inputs (record e { outcome = some withdrawn });
      }))
      unchanged (settles e _ p refl refl) tt

answer_with-MovesBy :
    (r : TaskRecord) (e : InputRecord) (a : Accepted) → IsOpen r e → MovesBy r (answer_with r e a)
unfolding answer_with
answer_with-MovesBy r e (rejects x) p = tt
answer_with-MovesBy r e (accepts m) p =
    if-MovesBy r (covers e.requests m)
      (patched (λ q. record q {
        status = working;
        inputs = settle_latest r.inputs (record e { responses = m; outcome = some answered });
      }))
      (patched (λ q. record q { inputs = settle_latest r.inputs (record e { responses = m }) }))
      (settles e _ p refl refl) (settles e _ p refl refl)

answer_as-MovesBy :
    (responses : OrderedMap String InputResponse) (o : Option InputRecord) (r : TaskRecord)
    → OpenIs r o
    → MovesBy r (answer_as responses o r)
unfolding answer_as
answer_as-MovesBy [] o r p = tt
answer_as-MovesBy ((key, response) ∷ rest) none r p = tt
answer_as-MovesBy ((key, response) ∷ rest) (some e) r p =
    answer_with-MovesBy r e (accept_each e ((key, response) ∷ rest) (accepts e.responses)) p

pub change-MovesBy : (a : Action) (r : TaskRecord) → MovesBy r (change a r)
unfolding change request_input withdraw answer
change-MovesBy cancels r =
    unless_terminal-MovesBy r (patched (λ q. record q { status = cancelled })) (same refl)
change-MovesBy interrupts r =
    unless_terminal-MovesBy r
      (patched (λ q. record q { status = failed; error = some interrupted })) (same refl)
change-MovesBy (completes x) r =
    unless_terminal-MovesBy r (patched (λ q. record q { status = completed; result = some x }))
      (same refl)
change-MovesBy (fails x) r =
    unless_terminal-MovesBy r (patched (λ q. record q { status = failed; error = some x }))
      (same refl)
change-MovesBy (sets_status x) r =
    unless_terminal-MovesBy r (patched (λ q. record q { status_message = some x })) (same refl)
change-MovesBy (checkpoints x) r =
    unless_terminal-MovesBy r (patched (λ q. record q { resume_data = some x })) (same refl)
change-MovesBy (requests_input is_aborted []) r = tt
change-MovesBy (requests_input is_aborted ((key, request) ∷ rest)) r =
    unless_terminal-MovesBy r (request_input is_aborted ((key, request) ∷ rest) r) (
      input_as-MovesBy is_aborted ((key, request) ∷ rest)
        (find_same ((key, request) ∷ rest) r.inputs) r)
change-MovesBy (withdraws id) r = withdraw_as-MovesBy id (open_input r) r (open_input-OpenIs r)
change-MovesBy (answers responses) r =
    answer_as-MovesBy responses (open_input r) r (open_input-OpenIs r)

-- A terminal record never changes again.

closed :
    (s : TaskStatus) (o : Option InputRecord)
    → is_terminal_status s ≡ true
    → open_as (needs_input s) o ≡ none
unfolding open_as
closed s none h = refl
closed working (some e) h = cc
closed input_required (some e) h = cc
closed completed (some e) h = refl
closed failed (some e) h = refl
closed cancelled (some e) h = refl

unless_terminal-terminal :
    (r : TaskRecord) (c : Change) → is_terminal r ≡ true → applied r (unless_terminal r c) ≡ r
unfolding unless_terminal applied
unless_terminal-terminal r c h = ap (λ b. applied r (if b then unchanged else c)) h

answer_as-none :
    (responses : OrderedMap String InputResponse) (r : TaskRecord)
    → applied r (answer_as responses none r) ≡ r
unfolding answer_as applied
answer_as-none [] r = refl
answer_as-none ((key, response) ∷ rest) r = refl

pub apply-terminal : (a : Action) (r : TaskRecord) → is_terminal r ≡ true → apply a r ≡ r
unfolding change apply withdraw answer open_input withdraw_as applied
apply-terminal cancels r h = unless_terminal-terminal r _ h
apply-terminal interrupts r h = unless_terminal-terminal r _ h
apply-terminal (completes x) r h = unless_terminal-terminal r _ h
apply-terminal (fails x) r h = unless_terminal-terminal r _ h
apply-terminal (sets_status x) r h = unless_terminal-terminal r _ h
apply-terminal (checkpoints x) r h = unless_terminal-terminal r _ h
apply-terminal (requests_input is_aborted []) r h = refl
apply-terminal (requests_input is_aborted ((key, request) ∷ rest)) r h =
    unless_terminal-terminal r _ h
apply-terminal (withdraws id) r h =
    ap (λ o. applied r (withdraw_as id o r)) (closed r.status (latest r.inputs) h)
apply-terminal (answers responses) r h =
    ap (λ o. applied r (answer_as responses o r)) (closed r.status (latest r.inputs) h)
    ∙ answer_as-none responses r
