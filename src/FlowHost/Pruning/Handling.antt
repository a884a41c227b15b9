-- ===== src/FlowHost/Pruning/Handling.antt =====
-- What the work of a pruning on one run does to the stores.
use mokei.Common.{
  ℕ, suc, ◌+◌, ◌≡◌, refl, subst, String, Option, none, some, List, [], ◌∷◌, Bool, true, false, ◌||◌,
  ◌&&◌, not, if◌then◌else◌, string_key, ltb, is_some, ◌⊎◌, inl, inr, arith,
}
use mokei.Common.OrderedMap.{get, has, delete, HasDistinctKeys, has-delete_le}
use mokei.Tasks.Store.{TaskStore}
use mokei.Tasks.Store
use mokei.FlowHost.Runs.{
  RunRecord, RunStore, RunState, awaiting_approval, working, input_required, denied, completed,
  failed, cancelled, is_state, includes_state, in_states, is_before, matching, insert_run,
  newest_first, limited, is_terminal_run_state, terminal_run_states, list,
}
use mokei.FlowHost.Runs
use mokei.FlowHost.Traces.{Deleted, delete_traces}
use mokei.FlowHost.Pruning.{
  Call, gets_run, gets_task, deletes_traces, deletes_task, deletes_run, Pruned, skip, remains,
  is_active_trace, delete_run, delete_task, delete_cascade, check_task, prune_found,
}

-- Each record stands under its own id, and no id twice.
abbrev pub IsKeyed : RunStore → Type 0
IsKeyed [] = Unit {0}
IsKeyed ((id, run) ∷ rest) = (run.run_id ≡ id) × (has rest id ≡ false) × IsKeyed rest

unfoldable pub is_blocked : TaskStore → Option String → Bool
is_blocked tasks none = false
is_blocked tasks (some task) = remains (get tasks task)

-- A run that has ended before the given time, in a trace that is not active and whose task has ended
-- or is gone.
unfoldable pub is_prunable : ℕ → List String → TaskStore → RunRecord → Bool
unfolding is_blocked
is_prunable before active tasks run =
    is_terminal_run_state run.state
    && ltb run.updated_at before
    && not (is_active_trace active run.trace_id)
    && not (is_blocked tasks run.task_id)

-- A call that the pruning of the run makes throws.
unfoldable pub is_faulty : (String → Call → Bool) → RunRecord → Bool
is_faulty throws run =
    throws run.run_id gets_run
    || ((is_some run.task_id && throws run.run_id gets_task)
        || ((is_some run.trace_id && throws run.run_id deletes_traces)
            || ((is_some run.task_id && throws run.run_id deletes_task)
                || throws run.run_id deletes_run)))

pub IsKeyed-HasDistinctKeys : (runs : RunStore) → IsKeyed runs → HasDistinctKeys runs
IsKeyed-HasDistinctKeys [] h = tt
IsKeyed-HasDistinctKeys ((id, run) ∷ rest) h = (h.1, IsKeyed-HasDistinctKeys rest h.2)

pub IsKeyed-run_id :
    (runs : RunStore) (id : String) (run : RunRecord)
    → IsKeyed runs
    → get runs id ≡ some run
    → run.run_id ≡ id
unfolding get
IsKeyed-run_id [] id run k h = cc
IsKeyed-run_id ((a, r) ∷ rest) id run k h = ground (arith, k, h, IsKeyed-run_id rest id run k.2)

pub delete-IsKeyed : (runs : RunStore) (id : String) → IsKeyed runs → IsKeyed (delete runs id)
unfolding delete
delete-IsKeyed [] id h = tt
delete-IsKeyed ((a, r) ∷ rest) id h =
    ground (arith, h, delete-IsKeyed rest id h.2, has-delete_le rest id a)

-- What the work on a run does to the stores: whether the run goes, and that perhaps its task does.
record Outcome (run : RunRecord) (goes : Bool) (w v : Pruned) : Type 0 where
  runs_is : v.runs ≡ (if goes then delete w.runs run.run_id else w.runs)
  tasks_is :
      (v.tasks ≡ w.tasks)
      ⊎ ((task : String) × (run.task_id ≡ some task) × (v.tasks ≡ delete w.tasks task))

-- What the work on a run does, with the deleted task not in the way.
pub record Handles (run : RunRecord) (goes : Bool) (w v : Pruned) : Type 0 where
  pub runs_is : v.runs ≡ (if goes then delete w.runs run.run_id else w.runs)
  pub tasks_is :
      (v.tasks ≡ w.tasks)
      ⊎ ((task : String) × (remains (get w.tasks task) ≡ false) × (v.tasks ≡ delete w.tasks task))

module _ (throws : String → Call → Bool) where
  delete_run-Outcome :
      (run : RunRecord) (w : Pruned)
      → Outcome run (not (throws run.run_id deletes_run)) w (delete_run throws run w)
  unfolding delete_run Runs.remove
  delete_run-Outcome run w = go (throws run.run_id deletes_run)
    where
      go :
          (b : Bool)
          → Outcome run (not b) w (
              if b
              then w
              else record w { runs = Runs.remove w.runs run.run_id; pruned = suc w.pruned })
      go true = record { runs_is = refl; tasks_is = inl refl }
      go false = record { runs_is = refl; tasks_is = inl refl }

  delete_run-tasks : (run : RunRecord) (w : Pruned) → (delete_run throws run w).tasks ≡ w.tasks
  unfolding delete_run
  delete_run-tasks run w = go (throws run.run_id deletes_run)
    where
      go :
          (b : Bool)
          → (if b
              then w
              else record w { runs = Runs.remove w.runs run.run_id; pruned = suc w.pruned }).tasks
            ≡ w.tasks
      go true = refl
      go false = refl

  delete_task-Outcome :
      (o : Option String) (run : RunRecord) (w : Pruned)
      → run.task_id ≡ o
      → Outcome run
          (not ((is_some o && throws run.run_id deletes_task) || throws run.run_id deletes_run))
          w
          (delete_task throws o run w)
  unfolding delete_task Store.remove
  delete_task-Outcome none run w h = delete_run-Outcome run w
  delete_task-Outcome (some task) run w h = go (throws run.run_id deletes_task)
    where
      v : Pruned
      v = record w { tasks = Store.remove w.tasks task }

      go :
          (b : Bool)
          → Outcome run
              (not (b || throws run.run_id deletes_run))
              w
              (if b then w else delete_run throws run v)
      go true = record { runs_is = refl; tasks_is = inl refl }
      go false =
          let r = delete_run-Outcome run v in
          record { runs_is = r.runs_is; tasks_is = inr (task, h, delete_run-tasks run v) }

  delete_cascade-Outcome :
      (o : Option String) (run : RunRecord) (w : Pruned)
      → Outcome run
          (not (
            (is_some o && throws run.run_id deletes_traces)
            || ((is_some run.task_id && throws run.run_id deletes_task)
                || throws run.run_id deletes_run)))
          w
          (delete_cascade throws o run w)
  unfolding delete_cascade
  delete_cascade-Outcome none run w = delete_task-Outcome run.task_id run w refl
  delete_cascade-Outcome (some trace) run w = go (throws run.run_id deletes_traces)
    where
      deleted : Deleted
      deleted = delete_traces (trace ∷ []) w.traces

      v : Pruned
      v = record w {
        traces = deleted.store;
        spans = w.spans + deleted.spans;
        logs = w.logs + deleted.logs;
      }

      go :
          (b : Bool)
          → Outcome run
              (not (
                b
                || ((is_some run.task_id && throws run.run_id deletes_task)
                    || throws run.run_id deletes_run)))
              w
              (if b then w else delete_task throws run.task_id run v)
      go true = record { runs_is = refl; tasks_is = inl refl }
      go false =
          let r = delete_task-Outcome run.task_id run v refl in
          record { runs_is = r.runs_is; tasks_is = r.tasks_is }

  unfoldable pub later_faults : RunRecord → Bool
  later_faults run =
      (is_some run.trace_id && throws run.run_id deletes_traces)
      || ((is_some run.task_id && throws run.run_id deletes_task) || throws run.run_id deletes_run)

  check_task-Handles :
      (o : Option String) (run : RunRecord) (w : Pruned)
      → run.task_id ≡ o
      → Handles run
          (not (is_blocked w.tasks o)
            && not ((is_some o && throws run.run_id gets_task) || later_faults run))
          w
          (check_task throws o run w)
  unfolding check_task skip later_faults is_blocked
  check_task-Handles none run w h =
      let r = delete_cascade-Outcome run.trace_id run w in
      record {
        runs_is = r.runs_is;
        tasks_is = elim r.tasks_is [ inl e ↦ inl e | inr (task, q, e) ↦ cc (h, q) ];
      }
  check_task-Handles (some task) run w h =
      go (throws run.run_id gets_task) (remains (get w.tasks task)) refl
    where
      go :
          (b c : Bool)
          → remains (get w.tasks task) ≡ c
          → Handles run
              (not c && not (b || later_faults run))
              w
              (if b then w else if c then skip w else delete_cascade throws run.trace_id run w)
      go true true q = record { runs_is = refl; tasks_is = inl refl }
      go true false q = record { runs_is = refl; tasks_is = inl refl }
      go false true q = record { runs_is = refl; tasks_is = inl refl }
      go false false q =
          let r = delete_cascade-Outcome run.trace_id run w in
          record {
            runs_is = r.runs_is;
            tasks_is = elim r.tasks_is [
              | inl e ↦ inl e
              | inr (t, k, e) ↦ inr (
                t,
                (let same : task ≡ t = cc (h, k) in
                    subst (λ x. remains (get w.tasks x) ≡ false) same q),
                e,
              )
            ];
          }

  module _ (before : ℕ) (active : List String) where
    pub prune_found-Handles :
        (run : RunRecord) (w : Pruned)
        → Handles run
            (is_prunable before active w.tasks run
              && not ((is_some run.task_id && throws run.run_id gets_task) || later_faults run))
            w
            (prune_found throws before active (some run) w)
    unfolding prune_found is_prunable skip
    prune_found-Handles run w =
        go (is_terminal_run_state run.state) (ltb run.updated_at before)
          (is_active_trace active run.trace_id)
      where
        faults : Bool
        faults = (is_some run.task_id && throws run.run_id gets_task) || later_faults run

        go :
            (a b c : Bool)
            → Handles run
                ((a && b && not c && not (is_blocked w.tasks run.task_id)) && not faults)
                w
                (if not a || not b
                  then skip w
                  else if c
                  then skip w
                  else check_task throws run.task_id run w)
        go false b c = record { runs_is = refl; tasks_is = inl refl }
        go true false c = record { runs_is = refl; tasks_is = inl refl }
        go true true true = record { runs_is = refl; tasks_is = inl refl }
        go true true false = check_task-Handles run.task_id run w refl
