-- ===== src/Tasks/Changes.antt =====
-- packages/context-server/src/task-manager.ts: the change callbacks that `#mutate` runs on a record, and
-- the reading of an outcome by `#waitForOutcome`. A change is made of the record as it was read.
pub mod History
mod Opened
mod Accepting
pub mod Validity
pub mod Answering
pub mod Moves
pub mod Waiting
pub mod Detailed
use mokei.Common.{
  ℕ, suc, String, Option, none, some, List, [], ◌∷◌, ◌++◌, Bool, true, false, if◌then◌else◌, not,
  ◌&&◌, ◌||◌, is_some, length, string_key, ◌==◌, map,
}
use mokei.Common.Json.{Json, negsuc}
use mokei.Common.OrderedMap.{OrderedMap, get, has, set}
use mokei.Rpc.Message.{RpcError, plain_error}
use mokei.Tasks.Record.{
  TaskRecord, InputRecord, InputRequest, InputResponse, InputOutcome, answered, withdrawn, working,
  input_required, completed, failed, cancelled, is_terminal, open_input, settle_latest,
  response_matches, equal_requests, missing_capability,
}

pub data TaskError : Type 0 where
  -- The reason of a signal that had aborted.
  aborted : TaskError
  inactive : TaskError
  expired : TaskError
  no_requests : TaskError
  key_reused : String → TaskError
  outstanding : TaskError
  needs_capability : String → TaskError
  not_awaiting : String → TaskError
  kind_mismatch : String → TaskError
  was_withdrawn : ℕ → TaskError

pub data Change : Type 0 where
  unchanged : Change
  -- The fields that the patch has, set in the record that the store holds.
  patched : (TaskRecord → TaskRecord) → Change
  raises : TaskError → Change

-- What has been decided on a task from outside of its record.
pub data Action : Type 0 where
  cancels : Action
  interrupts : Action
  completes : Json → Action
  fails : RpcError → Action
  sets_status : String → Action
  checkpoints : Json → Action
  requests_input : (aborted : Bool) → OrderedMap String InputRequest → Action
  withdraws : ℕ → Action
  answers : OrderedMap String InputResponse → Action

unfoldable pub unless_terminal : TaskRecord → Change → Change
unless_terminal r change = if is_terminal r then unchanged else change

-- `INTERRUPTED`
unfoldable pub interrupted : RpcError
interrupted = plain_error (negsuc 32602) "Task interrupted by server restart"

-- `record.inputs.find((entry) => equalJSON(entry.requests, requests))`
unfoldable pub find_same : OrderedMap String InputRequest → List InputRecord → Option InputRecord
find_same requests [] = none
find_same requests (e ∷ es) =
    if equal_requests e.requests requests then some e else find_same requests es

unfoldable pub is_issued : List InputRecord → String → Bool
is_issued [] key = false
is_issued (e ∷ es) key = has e.requests key || is_issued es key

-- `keys.find((key) => record.inputs.some(...))`
unfoldable pub find_reused : OrderedMap String InputRequest → List InputRecord → Option String
unfolding is_issued
find_reused [] es = none
find_reused ((key, request) ∷ rest) es = if is_issued es key then some key else find_reused rest es

unfoldable pub declared_input : OrderedMap String InputRequest → Option String → TaskRecord → Change
declared_input requests (some key) r = raises (needs_capability key)
declared_input requests none r = patched (λ q. record q {
  status = input_required;
  inputs =
      r.inputs
      ++ record { id = suc (length r.inputs); requests = requests; responses = []; outcome = none }
        ∷ [];
})

unfoldable pub new_input :
    (aborted : Bool) → OrderedMap String InputRequest → Option String → TaskRecord → Change
unfolding declared_input
new_input is_aborted requests (some key) r = raises (key_reused key)
new_input is_aborted requests none r =
    if is_aborted
    then raises aborted
    else if is_some (open_input r)
    then raises outstanding
    else declared_input requests (missing_capability requests r.capabilities) r

unfoldable pub input_as :
    (aborted : Bool) → OrderedMap String InputRequest → Option InputRecord → TaskRecord → Change
unfolding new_input
input_as is_aborted requests (some same) r = unchanged
input_as is_aborted requests none r =
    new_input is_aborted requests (find_reused requests r.inputs) r

-- The change of `#requestInput`, given whether the caller's own signal has aborted.
unfoldable pub request_input :
    (aborted : Bool) → OrderedMap String InputRequest → TaskRecord → Change
unfolding input_as find_same find_reused
request_input is_aborted requests r = input_as is_aborted requests (find_same requests r.inputs) r

unfoldable pub withdraw_as : ℕ → Option InputRecord → TaskRecord → Change
withdraw_as id none r = unchanged
withdraw_as id (some current) r =
    if current.id == id
    then patched (λ q. record q {
      status = working;
      inputs = settle_latest r.inputs (record current { outcome = some withdrawn });
    })
    else unchanged

-- The change of `#withdraw`.
unfoldable pub withdraw : ℕ → TaskRecord → Change
unfolding withdraw_as
withdraw id r = withdraw_as id (open_input r) r

pub data Accepted : Type 0 where
  accepts : OrderedMap String InputResponse → Accepted
  rejects : TaskError → Accepted

unfoldable pub accept_as :
    InputRecord
    → OrderedMap String InputResponse
    → String
    → InputResponse
    → Option InputRequest
    → Accepted
accept_as current accepted key response none = rejects (not_awaiting key)
accept_as current accepted key response (some request) =
    if has current.responses key
    then rejects (not_awaiting key)
    else if response_matches request response
    then accepts (set accepted key response)
    else rejects (kind_mismatch key)

unfoldable pub accept_one :
    InputRecord → OrderedMap String InputResponse → String → InputResponse → Accepted
unfolding accept_as
accept_one current accepted key response =
    accept_as current accepted key response (get current.requests key)

-- The loop over the responses.
unfoldable pub accept_each : InputRecord → OrderedMap String InputResponse → Accepted → Accepted
unfolding accept_one
accept_each current rest (rejects e) = rejects e
accept_each current [] (accepts accepted) = accepts accepted
accept_each current ((key, response) ∷ rest) (accepts accepted) =
    accept_each current rest (accept_one current accepted key response)

-- `Object.keys(open.requests).every((key) => Object.hasOwn(accepted, key))`
unfoldable pub covers : OrderedMap String InputRequest → OrderedMap String InputResponse → Bool
covers [] accepted = true
covers ((key, request) ∷ rest) accepted = has accepted key && covers rest accepted

unfoldable pub answer_with : TaskRecord → InputRecord → Accepted → Change
unfolding covers
answer_with r current (rejects e) = raises e
answer_with r current (accepts accepted) =
    if covers current.requests accepted
    then patched (λ q. record q {
      status = working;
      inputs =
          settle_latest r.inputs (record current { responses = accepted; outcome = some answered });
    })
    else patched (λ q. record q {
      inputs = settle_latest r.inputs (record current { responses = accepted });
    })

unfoldable pub answer_as :
    OrderedMap String InputResponse → Option InputRecord → TaskRecord → Change
unfolding answer_with accept_each
answer_as [] current r = unchanged
answer_as ((key, response) ∷ rest) none r = raises (not_awaiting key)
answer_as ((key, response) ∷ rest) (some current) r =
    answer_with r current (accept_each current ((key, response) ∷ rest) (accepts current.responses))

-- The change of `update`.
unfoldable pub answer : OrderedMap String InputResponse → TaskRecord → Change
unfolding answer_as
answer responses r = answer_as responses (open_input r) r

unfoldable pub change : Action → TaskRecord → Change
unfolding unless_terminal interrupted request_input withdraw answer
change cancels r = unless_terminal r (patched (λ q. record q { status = cancelled }))
change interrupts r =
    unless_terminal r (patched (λ q. record q { status = failed; error = some interrupted }))
change (completes v) r =
    unless_terminal r (patched (λ q. record q { status = completed; result = some v }))
change (fails e) r = unless_terminal r (patched (λ q. record q { status = failed; error = some e }))
change (sets_status message) r =
    unless_terminal r (patched (λ q. record q { status_message = some message }))
change (checkpoints v) r = unless_terminal r (patched (λ q. record q { resume_data = some v }))
change (requests_input is_aborted []) r = raises no_requests
change (requests_input is_aborted ((key, request) ∷ rest)) r =
    unless_terminal r (request_input is_aborted ((key, request) ∷ rest) r)
change (withdraws id) r = withdraw id r
change (answers responses) r = answer responses r

unfoldable pub applied : TaskRecord → Change → TaskRecord
applied r unchanged = r
applied r (patched patch) = patch r
applied r (raises e) = r

-- The record after a change.
unfoldable pub apply : Action → TaskRecord → TaskRecord
unfolding applied change
apply a r = applied r (change a r)

unfoldable pub apply_each : List Action → TaskRecord → TaskRecord
unfolding apply
apply_each [] r = r
apply_each (a ∷ rest) r = apply_each rest (apply a r)

pub data Awaited : Type 0 where
  waits : Awaited
  resolves : OrderedMap String InputResponse → Awaited
  fails_with : TaskError → Awaited

-- `record.inputs.find((item) => item.id === id)`
unfoldable pub find_input : ℕ → List InputRecord → Option InputRecord
find_input id [] = none
find_input id (e ∷ es) = if e.id == id then some e else find_input id es

unfoldable pub check_entry : ℕ → Bool → Option InputRecord → Option InputOutcome → Awaited
check_entry id is_over (some e) (some answered) = resolves e.responses
check_entry id is_over (some e) (some withdrawn) = fails_with (was_withdrawn id)
check_entry id is_over _ _ = if is_over then fails_with inactive else waits

unfoldable pub outcome_of : Option InputRecord → Option InputOutcome
outcome_of none = none
outcome_of (some e) = e.outcome

-- `check` of `#waitForOutcome`, for a signal that has not aborted.
unfoldable pub check : ℕ → Option TaskRecord → Awaited
unfolding check_entry find_input outcome_of
check id none = fails_with expired
check id (some r) =
    check_entry id (is_terminal r) (find_input id r.inputs) (outcome_of (find_input id r.inputs))

unfoldable pub unanswered :
    OrderedMap String InputRequest
    → OrderedMap String InputResponse
    → OrderedMap String InputRequest
unanswered [] responses = []
unanswered ((key, request) ∷ rest) responses =
    if has responses key
    then unanswered rest responses
    else (key, request) ∷ unanswered rest responses

unanswered_of : Option InputRecord → OrderedMap String InputRequest
unfolding unanswered
unanswered_of none = []
unanswered_of (some e) = unanswered e.requests e.responses

-- The `inputRequests` of `detailed`, for a record in status `input_required`.
unfoldable pub input_requests : TaskRecord → OrderedMap String InputRequest
unfolding unanswered_of
input_requests r = unanswered_of (open_input r)
