-- ===== src/Tasks/Handle.antt =====
-- packages/context-server/src/task-manager.ts: the writes that the work of a task makes through its handle,
-- `#activeMutation` and `#cancelFromHandle`.
pub mod Cancelling
mod Tests
use mokei.Common.{ℕ, String, Option, none, some, List, Bool, true, false, if◌then◌else◌, ◌||◌}
use mokei.Tasks.Record.{TaskRecord, is_terminal}
use mokei.Tasks.Changes.{Action, Change, unchanged, TaskError, aborted, inactive, change, cancels}
use mokei.Tasks.Store.{TaskStore, StoreError}
use mokei.Tasks.Manager.{Round, Mutated, gone, kept, wrote, throws, store_fails, retries, mutate}

pub data Active : Type 0 where
  active : TaskRecord → Active
  missing : Active
  refused : TaskError → Active
  store_error : StoreError → Active
  waiting : Active

-- What becomes of the record that `#mutate` gives back, where the signal has aborted or not.
unfoldable pub if_active : (is_aborted : Bool) → TaskRecord → Active
if_active is_aborted r =
    if is_aborted then refused aborted else if is_terminal r then refused inactive else active r

unfoldable pub active_result : (is_aborted : Bool) → Mutated → Active
unfolding if_active
active_result is_aborted gone = if is_aborted then refused aborted else missing
active_result is_aborted (kept r) = if_active is_aborted r
active_result is_aborted (wrote r) = if_active is_aborted r
active_result is_aborted (throws e) = refused e
active_result is_aborted (store_fails e) = store_error e
active_result is_aborted retries = waiting

-- The change, unless the signal has aborted by then.
unfoldable pub unless_aborted : Bool → Action → TaskRecord → Change
unless_aborted is_aborted action r = if is_aborted then unchanged else change action r

-- `#activeMutation`, given whether the signal has aborted before it, by its change and after it.
unfoldable pub active_mutation :
    (before during after : Bool) → List Round → String → Action → TaskStore → TaskStore × Active
unfolding active_result unless_aborted
active_mutation before during after rounds id action records =
    if before
    then (records, refused aborted)
    else let (s, m) = mutate rounds id (unless_aborted during action) records in
      (s, active_result after m)

unfoldable pub has_written : Mutated → Bool
has_written gone = false
has_written (kept r) = false
has_written (wrote r) = true
has_written (throws e) = false
has_written (store_fails e) = false
has_written retries = false

-- `#cancelFromHandle`: whether this call has won. `before` and `during` say whether the signal has
-- aborted or the manager is disposed.
unfoldable pub cancel_from_handle :
    (before during : Bool) → List Round → String → TaskStore → TaskStore × Bool
unfolding has_written unless_aborted
cancel_from_handle before during rounds id records =
    if before
    then (records, false)
    else let (s, m) = mutate rounds id (unless_aborted during cancels) records in (s, has_written m)
