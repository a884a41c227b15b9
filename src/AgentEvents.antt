-- ===== src/AgentEvents.antt =====
-- `AgentEventChannel` of packages/session/src/agent-event-channel.ts. A promise that waits goes by the
-- number of its call; `resolved` are those that were resolved, the newest first. `#taken` is the
-- difference of two counts here, since it can fall below zero; `output` is what `takeAll` returned.
pub mod Delivery
mod Tests
use mokei.Common.{
  ℕ, suc, ◌+◌, List, [], ◌∷◌, ◌++◌, Bool, true, false, ◌||◌, ◌&&◌, not, if◌then◌else◌, ltb, ◌==◌,
  length,
}
use mokei.Common.Json.{Json}

pub record Channel : Type 0 where
  pub events : List Json
  pub waiters : List ℕ
  pub drain_waiters : List ℕ
  pub taken : ℕ
  pub acknowledged : ℕ
  pub closed : Bool
  pub calls : ℕ
  pub resolved : List ℕ
  pub output : List Json

unfoldable pub new_channel : Channel
new_channel = record {
  events = [];
  waiters = [];
  drain_waiters = [];
  taken = 0;
  acknowledged = 0;
  closed = false;
  calls = 0;
  resolved = [];
  output = [];
}

unfoldable pub is_empty : List Json → Bool
is_empty [] = true
is_empty (e ∷ events) = false

-- `#wake`
unfoldable pub wake : Channel → Channel
wake c = record c { resolved = c.waiters ++ c.resolved; waiters = [] }

-- `#wakeDrain`
unfoldable pub wake_drain : Channel → Channel
unfolding is_empty
wake_drain c =
    if not c.closed && (not (is_empty c.events) || ltb c.acknowledged c.taken)
    then c
    else record c { resolved = c.drain_waiters ++ c.resolved; drain_waiters = [] }

unfoldable pub push : Json → Channel → Channel
unfolding wake
push event c = if c.closed then c else wake (record c { events = c.events ++ event ∷ [] })

unfoldable pub take_all : Channel → Channel
take_all c = record c {
  events = [];
  taken = c.taken + length c.events;
  output = c.output ++ c.events;
}

unfoldable pub acknowledge : ℕ → Channel → Channel
unfolding wake_drain
acknowledge count c = wake_drain (record c { acknowledged = c.acknowledged + count })

unfoldable pub is_drained : Channel → Bool
unfolding is_empty
is_drained c = c.closed || (is_empty c.events && c.taken == c.acknowledged)

unfoldable pub wait_for_drain : Channel → Channel
unfolding is_drained
wait_for_drain c =
    if is_drained c
    then record c { calls = suc c.calls; resolved = c.calls ∷ c.resolved }
    else record c { calls = suc c.calls; drain_waiters = c.drain_waiters ++ c.calls ∷ [] }

unfoldable pub wait_for_event : Channel → Channel
unfolding is_empty
wait_for_event c =
    if not (is_empty c.events) || c.closed
    then record c { calls = suc c.calls; resolved = c.calls ∷ c.resolved }
    else record c { calls = suc c.calls; waiters = c.waiters ++ c.calls ∷ [] }

unfoldable pub close : Channel → Channel
unfolding wake wake_drain
close c = wake_drain (wake (record c { closed = true }))

-- A call of a method.
pub data Call : Type 0 where
  pushes : Json → Call
  takes : Call
  acknowledges : ℕ → Call
  waits_for_drain : Call
  waits_for_event : Call
  closes : Call

unfoldable pub step : Channel → Call → Channel
unfolding push take_all acknowledge wait_for_drain wait_for_event close
step c (pushes event) = push event c
step c takes = take_all c
step c (acknowledges count) = acknowledge count c
step c waits_for_drain = wait_for_drain c
step c waits_for_event = wait_for_event c
step c closes = close c

unfoldable pub run : Channel → List Call → Channel
unfolding step
run c [] = c
run c (call ∷ calls) = run (step c call) calls
