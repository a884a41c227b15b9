-- ===== src/FlowHost/Transitions.antt =====
-- `transition` of packages/flow-host/src/transitions.ts, with what others do to the store between its
-- read and its write, in each of the five attempts, as given functions.
pub mod Sound
use mokei.Common.{
  ℕ, zero, suc, String, Option, none, some, Bool, true, false, if◌then◌else◌, not, string_key,
}
use mokei.Common.OrderedMap.{get}
use mokei.FlowHost.Runs.{
  RunRecord, RunStore, RunStoreError, conflict, not_found, already_exists, Updated, updated,
  refuses, is_terminal_run_state, is_state, update,
}

-- What `transition` leaves in the store, and its result or error.
pub data Transition : Type 0 where
  unchanged : RunStore → RunRecord → Transition
  changed : RunStore → RunRecord → (state_changed : Bool) → Transition
  run_not_found : RunStore → Transition
  throws : RunStore → RunStoreError → Transition

-- A patch of a run, or none where nothing is to be done.
abbrev pub Compute : Type 0
Compute = RunRecord → Option (RunRecord → RunRecord)

-- The world in an attempt: the changes of others before the write, and the time of the write.
pub record Attempt : Type 0 where
  pub meantime : RunStore → RunStore
  pub now : ℕ

unfoldable pub with_time : ℕ → (RunRecord → RunRecord) → RunRecord → RunRecord
with_time now patch r = record (patch r) { updated_at = now }

-- After a write: `again` is the next attempt, `none` in the last one.
unfoldable pub after_write :
    RunStore → RunRecord → Updated → Option (RunStore → Transition) → Transition
unfolding is_state
after_write store current (updated s r) again = changed s r (not (is_state r.state current.state))
after_write store current (refuses conflict) none = throws store conflict
after_write store current (refuses conflict) (some again) = again store
after_write store current (refuses (not_found id)) again = throws store (not_found id)
after_write store current (refuses (already_exists id)) again = throws store (already_exists id)

unfoldable pub attempt_patch :
    String
    → Attempt
    → RunStore
    → RunRecord
    → Option (RunRecord → RunRecord)
    → Option (RunStore → Transition)
    → Transition
unfolding after_write with_time update
attempt_patch id a store current none again = unchanged store current
attempt_patch id a store current (some patch) again =
    after_write (a.meantime store) current
      (update (a.meantime store) id (with_time a.now patch) current.revision) again

unfoldable pub attempt_found :
    String
    → Compute
    → Attempt
    → RunStore
    → Option RunRecord
    → Option (RunStore → Transition)
    → Transition
unfolding attempt_patch is_terminal_run_state
attempt_found id compute a store none again = run_not_found store
attempt_found id compute a store (some current) again =
    if is_terminal_run_state current.state
    then unchanged store current
    else attempt_patch id a store current (compute current) again

-- The loop, in the attempt `n` and with so many attempts after it.
unfoldable pub attempts : String → Compute → (ℕ → Attempt) → (left n : ℕ) → RunStore → Transition
unfolding attempt_found
attempts id compute world zero n store =
    attempt_found id compute (world n) store (get store id) none
attempts id compute world (suc left) n store =
    attempt_found id compute (world n) store (get store id)
      (some (attempts id compute world left (suc n)))

unfoldable pub transition : String → Compute → (ℕ → Attempt) → RunStore → Transition
unfolding attempts
transition id compute world store = attempts id compute world 4 0 store
