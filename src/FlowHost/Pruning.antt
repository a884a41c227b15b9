-- ===== src/FlowHost/Pruning.antt =====
-- `pruneRuns` of packages/flow-host/src/prune-runs.ts over the stores in memory. Stores of another
-- kind may throw: `throws` tells of each call for a run whether it does, without having an effect.
pub mod Handling
pub mod Kept
pub mod Rounds
use mokei.Common.{
  ℕ, suc, ◌+◌, String, Option, none, some, List, [], ◌∷◌, ◌++◌, Bool, true, false, ◌||◌, ◌&&◌, not,
  if◌then◌else◌, string_key, ltb,
}
use mokei.Common.OrderedMap.{get}
use mokei.Tasks.Record.{TaskRecord, TaskStatus}
use mokei.Tasks.Store.{TaskStore}
use mokei.Tasks.Store
use mokei.FlowHost.Runs.{RunRecord, RunStore, is_terminal_run_state, terminal_run_states, list}
use mokei.FlowHost.Runs
use mokei.FlowHost.Traces.{TraceStore, Deleted, includes_id, delete_traces, delete_before}

pub data Call : Type 0 where
  gets_run gets_task deletes_traces deletes_task deletes_run : Call

-- The stores and the counts.
pub record Pruned : Type 0 where
  pub runs : RunStore
  pub tasks : TaskStore
  pub traces : TraceStore
  pub pruned : ℕ
  pub skipped : ℕ
  pub spans : ℕ
  pub logs : ℕ

unfoldable pub skip : Pruned → Pruned
skip w = record w { skipped = suc w.skipped }

unfoldable pub has_ended : TaskStatus → Bool
has_ended TaskStatus.completed = true
has_ended TaskStatus.failed = true
has_ended TaskStatus.cancelled = true
has_ended _ = false

-- A task that is still there and has not ended.
unfoldable pub remains : Option TaskRecord → Bool
unfolding has_ended
remains none = false
remains (some task) = not (has_ended task.status)

unfoldable pub is_active_trace : List String → Option String → Bool
unfolding includes_id
is_active_trace active none = false
is_active_trace active (some trace) = includes_id active trace

unfoldable pub trace_ids : List RunRecord → List String
trace_ids [] = []
trace_ids (run ∷ runs) = elim run.trace_id [ none ↦ trace_ids runs | some id ↦ id ∷ trace_ids runs ]

-- The sweep of old traces that belong to no run that is left.
unfoldable pub sweep : ℕ → List String → Pruned → Pruned
unfolding trace_ids delete_before list
sweep before active w =
    let swept = delete_before before (trace_ids (list w.runs none none none) ++ active) w.traces in
    record w { traces = swept.store; spans = w.spans + swept.spans; logs = w.logs + swept.logs }

module _ (throws : String → Call → Bool) where
  unfoldable pub delete_run : RunRecord → Pruned → Pruned
  delete_run run w =
      if throws run.run_id deletes_run
      then w
      else record w { runs = Runs.remove w.runs run.run_id; pruned = suc w.pruned }

  unfoldable pub delete_task : Option String → RunRecord → Pruned → Pruned
  unfolding delete_run
  delete_task none run w = delete_run run w
  delete_task (some task) run w =
      if throws run.run_id deletes_task
      then w
      else delete_run run (record w { tasks = Store.remove w.tasks task })

  -- The cascade: the trace of a run, its task, and the run.
  unfoldable pub delete_cascade : Option String → RunRecord → Pruned → Pruned
  unfolding delete_task delete_traces
  delete_cascade none run w = delete_task run.task_id run w
  delete_cascade (some trace) run w =
      if throws run.run_id deletes_traces
      then w
      else (let deleted = delete_traces (trace ∷ []) w.traces in
          delete_task run.task_id run (record w {
            traces = deleted.store;
            spans = w.spans + deleted.spans;
            logs = w.logs + deleted.logs;
          }))

  unfoldable pub check_task : Option String → RunRecord → Pruned → Pruned
  unfolding delete_cascade remains skip
  check_task none run w = delete_cascade run.trace_id run w
  check_task (some task) run w =
      if throws run.run_id gets_task
      then w
      else if remains (get w.tasks task)
      then skip w
      else delete_cascade run.trace_id run w

  unfoldable pub prune_found : ℕ → List String → Option RunRecord → Pruned → Pruned
  unfolding check_task skip is_active_trace is_terminal_run_state
  prune_found before active none w = skip w
  prune_found before active (some run) w =
      if not (is_terminal_run_state run.state) || not (ltb run.updated_at before)
      then skip w
      else if is_active_trace active run.trace_id
      then skip w
      else check_task run.task_id run w

  -- One round of the loop over the candidates.
  unfoldable pub prune_one : ℕ → List String → RunRecord → Pruned → Pruned
  unfolding prune_found
  prune_one before active candidate w =
      if throws candidate.run_id gets_run
      then w
      else prune_found before active (get w.runs candidate.run_id) w

  unfoldable pub prune_each : ℕ → List String → List RunRecord → Pruned → Pruned
  unfolding prune_one
  prune_each before active [] w = w
  prune_each before active (candidate ∷ rest) w =
      prune_each before active rest (prune_one before active candidate w)

  -- `active` and `active_after` are the answers of `listActiveTraceIDs` before and after the loop.
  unfoldable pub prune_runs :
      ℕ → (active active_after : List String) → RunStore → TaskStore → TraceStore → Pruned
  unfolding prune_each sweep list
  prune_runs before active active_after runs tasks traces = sweep before active_after (
      prune_each before active (list runs (some terminal_run_states) none (some before)) (record {
        runs = runs;
        tasks = tasks;
        traces = traces;
        pruned = 0;
        skipped = 0;
        spans = 0;
        logs = 0;
      }))
