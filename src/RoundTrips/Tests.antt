-- ===== src/RoundTrips/Tests.antt =====
-- A server that asks for input once, for a call with a total timeout.
use mokei.Common.{ℕ, ◌≡◌, refl, none, some, [], ◌∷◌, ltb, if◌then◌else◌}
use mokei.Common.Json.{text, null, end}
use mokei.Tasks.Record.{roots}
use mokei.RoundTrips.{
  Payload, complete, suspended, Round, Settings, returns, rounds_exceeded, run_input_required_flow,
  run_rounds, run_round, prepare, unless_error, dispatch_each, budget, at_most, send_leg, after_leg,
  retry_params,
}

evaluation : Unit {0}
unfolding run_input_required_flow run_rounds run_round prepare unless_error dispatch_each budget
    at_most send_leg after_leg retry_params
evaluation = tt

abbrev first : Payload
first = record {
  input_requests = ("where", record { method = roots; params = null }) ∷ [];
  request_state = some "s1";
}

abbrev busy : Payload
busy = record { input_requests = []; request_state = some "s2" }

abbrev world : ℕ → ℕ → Round
world suspensions n = record {
  dispatch_error = none;
  dispatch = λ key request. record { members = end };
  sleep_error = none;
  clock = 100;
  retry = λ params timeout. if ltb suspensions n then complete (text "done") else suspended busy;
}

abbrev settings : Settings
settings = record {
  max_rounds = 2;
  timeout = some 500;
  max_total_timeout = some 300;
  started_at = 50;
}

done_after_two : (run_input_required_flow (world 1) settings first).ending ≡ returns (text "done")
unfolding evaluation
done_after_two = refl

never_done : (run_input_required_flow (world 9) settings first).ending ≡ rounds_exceeded 2 busy
unfolding evaluation
never_done = refl
