-- ===== src/RoundTrips.antt =====
-- `runInputRequiredFlow` of packages/context-client/src/mrtr.ts: a call that the server suspends until
-- it is given input, and that is sent again with it. What the world does in a round is given: the
-- dispatches, which run side by side, have an error if one of them rejects first.
pub mod Echoing
mod Tests
use mokei.Common.{
  ℕ, zero, suc, ◌+◌, ◌-◌, min, String, Option, none, some, List, [], ◌∷◌, if◌then◌else◌, leb,
}
use mokei.Common.Json.{Json}
use mokei.Common.OrderedMap.{OrderedMap}
use mokei.Tasks.Record.{InputRequest, InputResponse}

-- A suspension: what an `InputRequiredResult` asks for.
pub record Payload : Type 0 where
  pub input_requests : OrderedMap String InputRequest
  pub request_state : Option String

pub record RetryParams : Type 0 where
  pub input_responses : Option (OrderedMap String InputResponse)
  pub request_state : Option String

-- What a leg came back with.
pub data Answer : Type 0 where
  complete : Json → Answer
  suspended : Payload → Answer
  rejected : (reason : String) → Answer

-- The world in one round: `clock` is the time at which the leg is sent.
pub record Round : Type 0 where
  pub dispatch_error : Option String
  pub dispatch : String → InputRequest → InputResponse
  pub sleep_error : Option String
  pub clock : ℕ
  pub retry : RetryParams → Option ℕ → Answer

pub record Settings : Type 0 where
  pub max_rounds : ℕ
  pub timeout : Option ℕ
  pub max_total_timeout : Option ℕ
  pub started_at : ℕ

pub data Ending : Type 0 where
  returns : Json → Ending
  throws : (reason : String) → Ending
  rounds_exceeded : (rounds : ℕ) → (last_result : Payload) → Ending
  total_timeout : (max_total_timeout elapsed : ℕ) → Ending

-- A call of `retry`, in its round.
pub record Leg : Type 0 where
  pub round : ℕ
  pub params : RetryParams
  pub timeout : Option ℕ

-- The legs that were sent, the first first, and how the flow ended.
pub record Flow : Type 0 where
  pub legs : List Leg
  pub ending : Ending

unfoldable pub dispatch_each :
    (String → InputRequest → InputResponse)
    → OrderedMap String InputRequest
    → OrderedMap String InputResponse
dispatch_each dispatch [] = []
dispatch_each dispatch ((key, request) ∷ rest) =
    (key, dispatch key request) ∷ dispatch_each dispatch rest

pub data Prepared : Type 0 where
  failed : (reason : String) → Prepared
  ready : Option (OrderedMap String InputResponse) → Prepared

unfoldable pub unless_error : Option String → Option (OrderedMap String InputResponse) → Prepared
unless_error none responses = ready responses
unless_error (some reason) responses = failed reason

-- The embedded requests, or the pause where there are none.
unfoldable pub prepare : Round → OrderedMap String InputRequest → Prepared
unfolding unless_error dispatch_each
prepare r [] = unless_error r.sleep_error none
prepare r (entry ∷ entries) =
    unless_error r.dispatch_error (some (dispatch_each r.dispatch (entry ∷ entries)))

pub data Budget : Type 0 where
  spent : (max_total_timeout elapsed : ℕ) → Budget
  allows : Option ℕ → Budget

unfoldable pub at_most : Option ℕ → ℕ → ℕ
at_most none remaining = remaining
at_most (some timeout) remaining = min timeout remaining

-- The remaining time is `maxTotalTimeout - (now - startedAt)`.
unfoldable pub budget : Settings → Option ℕ → ℕ → Budget
unfolding at_most
budget settings none clock = allows settings.timeout
budget settings (some total) clock =
    if leb (total + settings.started_at) clock
    then spent total (clock - settings.started_at)
    else allows (some (at_most settings.timeout (total + settings.started_at - clock)))

abbrev stops : Ending → Flow
stops ending = record { legs = []; ending = ending }

-- What follows a leg by its answer; `again` goes on with a suspension.
unfoldable pub after_leg : Leg → Answer → (Payload → Flow) → Flow
after_leg leg (complete v) again = record { legs = leg ∷ []; ending = returns v }
after_leg leg (rejected reason) again = record { legs = leg ∷ []; ending = throws reason }
after_leg leg (suspended payload) again =
    let more = again payload in record { legs = leg ∷ more.legs; ending = more.ending }

unfoldable pub send_leg : ℕ → Round → RetryParams → Budget → (Payload → Flow) → Flow
unfolding after_leg
send_leg n r params (spent total elapsed) again = stops (total_timeout total elapsed)
send_leg n r params (allows timeout) again =
    after_leg (record { round = n; params = params; timeout = timeout }) (r.retry params timeout)
      again

unfoldable pub retry_params : Payload → Option (OrderedMap String InputResponse) → RetryParams
retry_params payload responses = record {
  input_responses = responses;
  request_state = payload.request_state;
}

unfoldable pub run_round : Settings → ℕ → Round → Payload → Prepared → (Payload → Flow) → Flow
unfolding send_leg budget retry_params
run_round settings n r payload (failed reason) again = stops (throws reason)
run_round settings n r payload (ready responses) again =
    send_leg n r (retry_params payload responses)
      (budget settings settings.max_total_timeout r.clock) again

-- The loop with so many rounds left, in the round `n`, which is the first one to have number 1.
unfoldable pub run_rounds : (ℕ → Round) → Settings → ℕ → ℕ → Payload → Flow
unfolding run_round prepare
run_rounds world settings zero n payload = stops (rounds_exceeded settings.max_rounds payload)
run_rounds world settings (suc left) n payload =
    run_round settings n (world n) payload (prepare (world n) payload.input_requests)
      (run_rounds world settings left (suc n))

unfoldable pub run_input_required_flow : (ℕ → Round) → Settings → Payload → Flow
unfolding run_rounds
run_input_required_flow world settings first = run_rounds world settings settings.max_rounds 1 first
