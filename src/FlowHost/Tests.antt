-- ===== src/FlowHost/Tests.antt =====
-- A store with an old and a recent run, and a transition of a run that is at work.
use mokei.Common.{
  ℕ, ◌≡◌, refl, String, String-discrete, string_key, none, some, [], ◌∷◌, Bool, false, true,
}
use mokei.Common.Json.{null}
use mokei.Common.OrderedMap.{get, has, set, delete}
use mokei.Tasks.Store.{TaskStore}
use mokei.FlowHost.Runs.{
  RunRecord, RunStore, RunState, completed, working, matching, in_states, includes_state, is_state,
  is_before, insert_run, newest_first, limited, list, is_terminal_run_state, patch_as, update,
}
use mokei.FlowHost.Runs
use mokei.FlowHost.Traces.{TraceStore, StoredSpan, SpanRow, new_store, add_spans}
use mokei.FlowHost.Traces.Reading.{get_trace, select, sorted_rows, count, IsInOrder}
use mokei.FlowHost.Traces.Latest.{latest_spans, get_trace-add_spans}
use mokei.Common.{◌===◌, ◌&&◌, List, map}
use mokei.FlowHost.Transitions.{
  Attempt, Compute, changed, transition, attempts, attempt_found, attempt_patch, after_write,
  with_time,
}
use mokei.FlowHost.Transitions.Sound.{IsSound, transition-IsSound}
use mokei.FlowHost.Pruning.{
  Call, prune_runs, prune_each, prune_one, prune_found, check_task, delete_cascade, delete_task,
  delete_run, sweep, is_active_trace,
}

evaluation : Unit {0}
unfolding prune_runs prune_each prune_one prune_found check_task delete_cascade delete_task
    delete_run Runs.remove sweep is_active_trace matching in_states includes_state is_state
    is_before insert_run newest_first limited list is_terminal_run_state patch_as update transition
    attempts attempt_found attempt_patch after_write with_time get set delete has String-discrete
evaluation = tt

abbrev run : String → RunState → ℕ → RunRecord
run id state updated = record {
  run_id = id;
  state = state;
  created_at = 1;
  updated_at = updated;
  trace_id = none;
  task_id = none;
  revision = 3;
  details = null;
}

abbrev runs : RunStore
runs =
    ("old", run "old" completed 5)
    ∷ ("new", run "new" completed 50)
    ∷ ("busy", run "busy" working 5)
    ∷ []

abbrev no_traces : TraceStore
no_traces = record { spans = []; logs = []; sequence = 0 }

abbrev sound : String → Call → Bool
sound id call = false

abbrev no_tasks : TaskStore
no_tasks = []

old_is_pruned :
    (prune_runs sound 20 [] [] runs no_tasks no_traces).runs
    ≡ ("new", run "new" completed 50) ∷ ("busy", run "busy" working 5) ∷ []
unfolding evaluation
old_is_pruned = refl

abbrev complete_at : ℕ → ℕ → Attempt
complete_at time n = record { meantime = λ s. s; now = time }

abbrev complete : Compute
complete r = some (λ q. record q { state = completed })

busy_completes :
    transition "busy" complete (complete_at 60) (("busy", run "busy" working 5) ∷ [])
    ≡ changed
        (("busy", record (run "busy" completed 60) { revision = 4 }) ∷ [])
        (record (run "busy" completed 60) { revision = 4 })
        true
unfolding evaluation
busy_completes = refl

transition-IsSound_example :
    IsSound "busy" complete (complete_at 60) (transition "busy" complete (complete_at 60) runs)
transition-IsSound_example =
    transition-IsSound "busy" complete (complete_at 60) runs (λ m s r q h k e. cc (h, k))

abbrev span : String → ℕ → StoredSpan
span id start = record {
  trace_id = "t1";
  span_id = id;
  start_time = start;
  end_time = 9;
  details = null;
}

abbrev two_spans : TraceStore
two_spans = add_spans (span "b" 5 ∷ span "a" 3 ∷ []) no_traces

earlier_first : (get_trace "t1" two_spans).0 ≡ span "a" 3 ∷ span "b" 5 ∷ []
unfolding evaluation add_spans get_trace select sorted_rows new_store
earlier_first = refl

abbrev span_again : List StoredSpan
span_again = span "b" 5 ∷ span "a" 3 ∷ span "b" 3 ∷ []

get_trace-add_spans_example :
    let store = add_spans span_again new_store in
    (read : List SpanRow) × ((get_trace "t1" store).0 ≡ map (λ r. r.value) read)
    × IsInOrder (λ r. r.value.start_time) (λ r. r.sequence) read
    × ((q : SpanRow → Bool)
        → count q read ≡ count (λ r. r.value.trace_id === "t1" && q r) store.spans)
    × ((p : StoredSpan → Bool)
        → count p (get_trace "t1" store).0
          ≡ count (λ s. s.trace_id === "t1" && p s) (latest_spans span_again))
get_trace-add_spans_example = get_trace-add_spans "t1" span_again

-- The later version comes in the place of the first one.
in_place : (get_trace "t1" (add_spans span_again new_store)).0 ≡ span "b" 3 ∷ span "a" 3 ∷ []
unfolding evaluation add_spans get_trace select sorted_rows new_store
in_place = refl
