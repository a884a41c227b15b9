-- ===== src/AgentEvents/Delivery.antt =====
-- The events of a channel come out once and in order, and nobody waits for what is there.
use mokei.Common.{
  ◌+◌, ◌≤◌, ◌≡◌, refl, ap, ◌⊎◌, inl, inr, List, [], ◌∷◌, ◌++◌, true, false, ◌||◌, not,
  if◌then◌else◌, ◌==◌, length, arith,
}
use mokei.Common.Json.{Json}
use mokei.AgentEvents.{
  Channel, new_channel, is_empty, wake, wake_drain, push, take_all, acknowledge, is_drained,
  wait_for_drain, wait_for_event, close, Call, pushes, takes, acknowledges, waits_for_drain,
  waits_for_event, closes, step, run,
}

-- The events that were pushed before the channel was closed.
abbrev pub pushed : List Call → List Json
pushed [] = []
pushed (pushes event ∷ calls) = event ∷ pushed calls
pushed (closes ∷ calls) = []
pushed (call ∷ calls) = pushed calls

-- No call acknowledges more events than were taken.
abbrev pub Acknowledges : Channel → Call → Type 0
Acknowledges c (acknowledges count) = c.acknowledged + count ≤ c.taken
Acknowledges c call = Unit {0}

abbrev pub AllAcknowledge : Channel → List Call → Type 0
AllAcknowledge c [] = Unit {0}
AllAcknowledge c (call ∷ calls) = Acknowledges c call × AllAcknowledge (step c call) calls

record IsLive (c : Channel) : Type 0 where
  within : c.acknowledged ≤ c.taken
  drained : is_drained c ≡ true → c.drain_waiters ≡ []

record IsAwake (c : Channel) : Type 0 where
  awake : not (is_empty c.events) || c.closed ≡ true → c.waiters ≡ []

is_empty-snoc : (es : List Json) (e : Json) → is_empty (es ++ e ∷ []) ≡ false
unfolding is_empty
is_empty-snoc [] e = refl
is_empty-snoc (x ∷ es) e = refl

is_empty-length : (es : List Json) → is_empty es ≡ (length es == 0)
unfolding is_empty
is_empty-length [] = refl
is_empty-length (x ∷ es) = ground arith

step-IsLive : (c : Channel) (call : Call) → Acknowledges c call → IsLive c → IsLive (step c call)
unfolding step push wake take_all acknowledge wake_drain is_drained wait_for_drain wait_for_event
    close
step-IsLive c (pushes event) a v = ground (arith, is_empty-snoc c.events event)
step-IsLive c takes a v = ground (arith, is_empty-length c.events)
step-IsLive c (acknowledges count) a v = ground arith
step-IsLive c waits_for_drain a v = ground arith
step-IsLive c waits_for_event a v = ground arith
step-IsLive c closes a v = ground arith

-- What came out of a channel and what is still in it.
abbrev contents : Channel → List Json
contents c = c.output ++ c.events

-- What comes out of a channel in the end, by what is in it and what is pushed from there on.
abbrev expected : Channel → List Json → List Json
expected c more = if c.closed then contents c else contents c ++ more

run-IsLive :
    (c : Channel) (calls : List Call) → AllAcknowledge c calls → IsLive c → IsLive (run c calls)
unfolding run
run-IsLive c [] a v = v
run-IsLive c (call ∷ calls) a v = run-IsLive (step c call) calls a.1 (step-IsLive c call a.0 v)

new_channel-IsLive : IsLive new_channel
unfolding new_channel
new_channel-IsLive = record { within = omega arith; drained = λ h. refl }

-- A channel is drained when it is closed, or has no events and owes no acknowledgement.
drained_of :
    (c : Channel)
    → (c.closed ≡ true) ⊎ ((c.events ≡ []) × (c.taken ≡ c.acknowledged))
    → is_drained c ≡ true
unfolding is_drained
drained_of c (inl h) = ground arith
drained_of c (inr h) = ground (arith, is_empty-length c.events, ap length h.0, h.1)

-- When no call of a history of a new channel acknowledges more events than were taken, nobody waits
-- for the drain of the channel when it is drained: when it is closed, or when it has no events and
-- all that were taken are acknowledged.
pub run-drained :
    (calls : List Call)
    → AllAcknowledge new_channel calls
    → ((run new_channel calls).closed ≡ true)
      ⊎ (((run new_channel calls).events ≡ [])
          × ((run new_channel calls).taken ≡ (run new_channel calls).acknowledged))
    → (run new_channel calls).drain_waiters ≡ []
run-drained calls a h =
    (run-IsLive new_channel calls a new_channel-IsLive).drained
      (drained_of (run new_channel calls) h)
