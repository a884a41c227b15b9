-- ===== src/RoundTrips/Echoing.antt =====
-- What the legs of a flow carry, how long they may take, and how many there are.
use mokei.Common.{
  ℕ, suc, ◌+◌, ◌-◌, ◌≤◌, ◌<◌, ◌≡◌, String, Option, none, some, List, [], ◌∷◌, length,
}
use mokei.Common.OrderedMap.{OrderedMap}
use mokei.Tasks.Record.{InputRequest, InputResponse}
use mokei.RoundTrips.{
  Payload, Answer, complete, suspended, rejected, Round, Settings, Ending, returns, throws,
  rounds_exceeded, total_timeout, Leg, Flow, dispatch_each, failed, prepare,
}

-- The responses that belong to some requests: none to none, or else one to each, under its key.
abbrev pub Responds :
    (String → InputRequest → InputResponse)
    → OrderedMap String InputRequest
    → Option (OrderedMap String InputResponse)
    → Type 0
Responds dispatch [] responses = responses ≡ none
Responds dispatch (entry ∷ entries) responses =
    responses ≡ some (dispatch_each dispatch (entry ∷ entries))

-- A leg within its own timeout and what is left of the total time.
abbrev pub IsInTime : Option ℕ → Option ℕ → ℕ → ℕ → Option ℕ → Type 0
IsInTime timeout none started_at clock leg = leg ≡ timeout
IsInTime none (some total) started_at clock leg =
    (t : ℕ) × (leg ≡ some t) × (0 < t) × (clock + t ≡ started_at + total)
IsInTime (some own) (some total) started_at clock leg =
    (t : ℕ) × (leg ≡ some t) × (t ≤ own) × (clock + t ≤ started_at + total)

-- How a flow may end after its last leg, which came back suspended with some payload.
abbrev pub EndsAfter : (ℕ → Round) → Settings → ℕ → Payload → Ending → Type 0
EndsAfter world settings n payload (returns v) = ⊥
EndsAfter world settings n payload (throws reason) =
    (prepare (world n) payload.input_requests ≡ failed reason) × (n ≤ settings.max_rounds)
EndsAfter world settings n payload (rounds_exceeded rounds last) =
    (n ≡ suc settings.max_rounds) × (rounds ≡ settings.max_rounds) × (last ≡ payload)
EndsAfter world settings n payload (total_timeout total elapsed) =
    (settings.max_total_timeout ≡ some total)
    × (elapsed ≡ (world n).clock - settings.started_at)
    × (total ≤ elapsed)

-- What follows a leg by its answer: the flow ends with it, or goes on from a suspension.
abbrev pub Next : Answer → List Leg → Ending → (Payload → Type 0) → Type 0
Next (complete v) legs ending again = (legs ≡ []) × (ending ≡ returns v)
Next (rejected reason) legs ending again = (legs ≡ []) × (ending ≡ throws reason)
Next (suspended payload) legs ending again = again payload

-- The flow from a suspension in a round on: each leg answers the suspension before it, in time, and
-- the ending fits the last answer.
abbrev pub Answers : (ℕ → Round) → Settings → ℕ → Payload → List Leg → Ending → Type 0
Answers world settings n payload [] ending = EndsAfter world settings n payload ending
Answers world settings n payload (leg ∷ legs) ending =
    (leg.round ≡ n)
    × (n ≤ settings.max_rounds)
    × (leg.params.request_state ≡ payload.request_state)
    × Responds (world n).dispatch payload.input_requests leg.params.input_responses
    × IsInTime settings.timeout settings.max_total_timeout settings.started_at (world n).clock
        leg.timeout
    × Next ((world n).retry leg.params leg.timeout) legs ending
        (λ p. Answers world settings (suc n) p legs ending)

module _ (world : ℕ → Round) (settings : Settings) where
  Holds : ℕ → ℕ → Payload → Flow → Type 0
  Holds left n payload flow =
      (length flow.legs ≤ left) × Answers world settings n payload flow.legs flow.ending
