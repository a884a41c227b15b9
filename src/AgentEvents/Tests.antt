-- ===== src/AgentEvents/Tests.antt =====
-- Two events, of which the first is taken and acknowledged while somebody waits for the drain.
use mokei.Common.{◌≡◌, refl, List, [], ◌∷◌}
use mokei.Common.Json.{text}
use mokei.AgentEvents.{
  new_channel, Call, pushes, takes, acknowledges, waits_for_drain, waits_for_event, is_empty,
  is_drained, wake, wake_drain, push, take_all, acknowledge, wait_for_drain, wait_for_event, close,
  run, step,
}

evaluation : Unit {0}
unfolding new_channel is_empty is_drained wake wake_drain push take_all acknowledge wait_for_drain
    wait_for_event close run step
evaluation = tt

abbrev calls : List Call
calls =
    waits_for_event
    ∷ pushes (text "a")
    ∷ waits_for_drain
    ∷ takes
    ∷ acknowledges 1
    ∷ pushes (text "b")
    ∷ []

drained_once : (run new_channel calls).resolved ≡ 1 ∷ 0 ∷ []
unfolding evaluation
drained_once = refl
