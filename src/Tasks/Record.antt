-- ===== src/Tasks/Record.antt =====
-- packages/context-server/src/task-store.ts: the types of a task's record, and the helpers on records
-- of packages/context-server/src/task-manager.ts and packages/context-server/src/mrtr.ts. A time is a
-- number of milliseconds: the ISO texts that the source stores are read back by `Date.parse`.
use mokei.Common.{
  ℕ, String, Option, none, some, List, [], ◌∷◌, Bool, true, false, if◌then◌else◌, not, ◌&&◌, ◌||◌,
  is_some, length, string_key, nat_key, ◌===◌, ◌==◌,
}
use mokei.Common.Json.{
  ℤ, ℤ-discrete, Json, null, boolean, int, text, array, object, Items, nil, cons, Fields, end,
  field, entries, items,
}
use mokei.Common.OrderedMap.{OrderedMap, get}
use mokei.Rpc.Message.{RpcError, member}

pub data TaskStatus : Type 0 where
  working input_required completed failed cancelled : TaskStatus

pub record TaskOwner : Type 0 where
  pub issuer : Option String
  pub subject : String
  pub scopes : List String

pub data InputMethod : Type 0 where
  sampling elicitation roots : InputMethod

pub record InputRequest : Type 0 where
  pub method : InputMethod
  pub params : Json

-- The members that a response has.
pub record InputResponse : Type 0 where
  pub members : Fields

pub data InputOutcome : Type 0 where
  answered withdrawn : InputOutcome

pub record InputRecord : Type 0 where
  pub id : ℕ
  pub requests : OrderedMap String InputRequest
  pub responses : OrderedMap String InputResponse
  pub outcome : Option InputOutcome

-- The client capabilities that an input request may need.
pub record Capabilities : Type 0 where
  pub can_sample : Bool
  pub can_elicit : Bool
  pub has_roots : Bool

pub record TaskRecord : Type 0 where
  pub task_id : String
  pub revision : ℕ
  pub status : TaskStatus
  pub status_message : Option String
  pub created_at : ℕ
  pub last_updated_at : ℕ
  pub ttl_ms : Option ℕ
  pub poll_interval_ms : Option ℕ
  pub owner : Option TaskOwner
  pub tool_name : String
  pub capabilities : Capabilities
  pub request_meta : Option Json
  pub resume_data : Option Json
  pub result : Option Json
  pub error : Option RpcError
  pub inputs : List InputRecord

abbrev pub is_terminal_status : TaskStatus → Bool
is_terminal_status working = false
is_terminal_status input_required = false
is_terminal_status completed = true
is_terminal_status failed = true
is_terminal_status cancelled = true

abbrev pub is_terminal : TaskRecord → Bool
is_terminal r = is_terminal_status r.status

abbrev pub needs_input : TaskStatus → Bool
needs_input input_required = true
needs_input working = false
needs_input completed = false
needs_input failed = false
needs_input cancelled = false

-- `record.inputs.at(-1)`
unfoldable pub latest : List InputRecord → Option InputRecord
latest [] = none
latest (e ∷ []) = some e
latest (e ∷ f ∷ rest) = latest (f ∷ rest)

unfoldable pub open_as : Bool → Option InputRecord → Option InputRecord
open_as required none = none
open_as required (some e) = if required && not (is_some e.outcome) then some e else none

-- `openInput`: the latest input request, when it is open.
unfoldable pub open_input : TaskRecord → Option InputRecord
unfolding open_as latest
open_input r = open_as (needs_input r.status) (latest r.inputs)

-- `settleLatest`: the last entry replaced.
unfoldable pub settle_latest : List InputRecord → InputRecord → List InputRecord
settle_latest [] entry = entry ∷ []
settle_latest (e ∷ []) entry = entry ∷ []
settle_latest (e ∷ f ∷ rest) entry = e ∷ settle_latest (f ∷ rest) entry

-- `saved.scopes.every((scope) => caller.scopes.includes(scope))`
unfoldable pub includes : List String → String → Bool
includes [] s = false
includes (t ∷ ts) s = t === s || includes ts s

unfoldable pub every_in : List String → List String → Bool
every_in [] there = true
every_in (s ∷ ss) there = includes there s && every_in ss there

unfoldable pub same_issuer : Option String → Option String → Bool
same_issuer none none = true
same_issuer (some a) (some b) = a === b
same_issuer _ _ = false

unfoldable pub matches_owner : Option TaskOwner → Option TaskOwner → Bool
unfolding same_issuer every_in includes
matches_owner none none = true
matches_owner (some saved) (some caller) =
    same_issuer saved.issuer caller.issuer
    && saved.subject === caller.subject
    && every_in saved.scopes caller.scopes
matches_owner _ _ = false

-- `key in response`
unfoldable pub has_member : Fields → String → Bool
has_member fs k = is_some (member fs k)

unfoldable pub response_matches : InputRequest → InputResponse → Bool
unfolding has_member
response_matches request response = elim request.method [
  | roots ↦ has_member response.members "roots"
  | elicitation ↦ has_member response.members "action"
  | sampling ↦ has_member response.members "model" && has_member response.members "content"
]

same_int : ℤ → ℤ → Bool
same_int a b = elim (ℤ-discrete a b) [ yes e ↦ true | no e ↦ false ]

same_boolean : Bool → Bool → Bool
same_boolean true b = b
same_boolean false b = not b

-- `equalJSON`. Two references to one object are equal in the source before their members are
-- compared; the members of one object are equal to themselves.
unfoldable mutual
  unfolding same_int same_boolean

  pub equal_json : Json → Json → Bool
  equal_json null null = true
  equal_json (boolean a) (boolean b) = same_boolean a b
  equal_json (int a) (int b) = same_int a b
  equal_json (text a) (text b) = a === b
  equal_json (array xs) (array ys) =
      length (items xs) == length (items ys) && equal_items xs (items ys)
  equal_json (object fs) (object gs) =
      length (entries fs) == length (entries gs) && equal_fields fs gs
  equal_json _ _ = false

  pub equal_items : Items → List Json → Bool
  equal_items nil ys = true
  equal_items (cons x xs) [] = false
  equal_items (cons x xs) (y ∷ ys) = equal_json x y && equal_items xs ys

  pub equal_fields : Fields → Fields → Bool
  equal_fields end gs = true
  equal_fields (field k v fs) gs =
      elim (member gs k) [ none ↦ false | some w ↦ equal_json v w ] && equal_fields fs gs

method_name : InputMethod → String
method_name sampling = "sampling/createMessage"
method_name elicitation = "elicitation/create"
method_name roots = "roots/list"

equal_request : InputRequest → Option InputRequest → Bool
unfolding method_name equal_json
equal_request a none = false
equal_request a (some b) =
    method_name a.method === method_name b.method && equal_json a.params b.params

equal_each : OrderedMap String InputRequest → OrderedMap String InputRequest → Bool
unfolding equal_request
equal_each [] there = true
equal_each ((k, a) ∷ rest) there = equal_request a (get there k) && equal_each rest there

-- `equalJSON` on two maps of requests.
unfoldable pub equal_requests :
    OrderedMap String InputRequest → OrderedMap String InputRequest → Bool
unfolding equal_each
equal_requests a b = length a == length b && equal_each a b

-- Whether the client has declared what the request needs (`INPUT_REQUEST_CAPABILITIES`).
is_declared : Capabilities → InputMethod → Bool
is_declared c sampling = c.can_sample
is_declared c elicitation = c.can_elicit
is_declared c roots = c.has_roots

-- The key of the first request whose capability `missingInputCapabilities` reports.
unfoldable pub missing_capability : OrderedMap String InputRequest → Capabilities → Option String
unfolding is_declared
missing_capability [] c = none
missing_capability ((k, request) ∷ rest) c =
    if is_declared c request.method then missing_capability rest c else some k
