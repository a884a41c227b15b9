-- ===== src/Rpc/Scheduler/Tests.antt =====
-- The request scheduler on concrete requests, one slot and one place in the queue.
use mokei.Common.{
  ℕ, ◌+◌, ◌≡◌, refl, none, List, [], ◌∷◌, RequestId-discrete, integer, dec_lt, ℕ_discrete, ite,
}
use mokei.Common.Json.{pos, ℤ-discrete}
use mokei.Common.OrderedMap.{get, has, set, delete}
use mokei.Rpc.Scheduler.{
  Scheduler, starts, aborts, answers, Call, schedules, cancels, settles, init, schedule, cancel,
  settle, drain, drain_loop, step, run,
}
use mokei.Rpc.Scheduler.Invariant.{step-IsValid, run-init-IsValid}
use mokei.Rpc.Scheduler.Valid.{IsValid}
use mokei.Rpc.Scheduler.Accounting.{queued_as, flying, answered, answered_once}
use mokei.Rpc.Scheduler.Fairness.{Below, started, started_in_order}

-- Names what the tests compute with.
evaluation : Unit {0}
unfolding run step init schedule cancel settle drain drain_loop get has set delete
    RequestId-discrete ℤ-discrete ℕ_discrete
evaluation = tt

abbrev three_requests : List (Call ℕ)
three_requests =
    schedules (integer (pos 1)) 10
    ∷ schedules (integer (pos 2)) 20
    ∷ schedules (integer (pos 3)) 30
    ∷ []

abbrev crowded : Scheduler ℕ
crowded = run (init 1 1) three_requests

-- The first runs, the second waits, the third was refused.
crowded_trace : crowded.trace ≡ starts 0 10 ∷ []
unfolding evaluation
crowded_trace = refl

-- When the first has ended, the second starts.
settled_trace :
    (step crowded (settles 0 none)).trace ≡ answers 0 none ∷ starts 1 20 ∷ starts 0 10 ∷ []
unfolding evaluation
settled_trace = refl

-- A queued request that is cancelled is answered with null, and never starts.
cancelled_trace :
    (run crowded (cancels (integer (pos 2)) ∷ settles 0 none ∷ [])).trace
    ≡ answers 0 none ∷ answers 1 none ∷ aborts 1 ∷ starts 0 10 ∷ []
unfolding evaluation
cancelled_trace = refl

step-IsValid_example : IsValid (step crowded (settles 0 none))
step-IsValid_example = step-IsValid crowded (settles 0 none) (run-init-IsValid 1 1 three_requests)

answered_once_example :
    queued_as 1 crowded.queued + flying 1 crowded.flights + answered 1 crowded.trace
    ≡ ite (dec_lt 1 crowded.next_controller) 1 0
answered_once_example = answered_once 1 1 three_requests 1

started_in_order_example : Below crowded.next_controller (started crowded.trace)
started_in_order_example = started_in_order 1 1 three_requests
