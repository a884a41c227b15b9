-- ===== src/Tasks/Manager.antt =====
-- packages/context-server/src/task-manager.ts: `#mutate`, and who may see a task. While `#mutate` awaits the store,
-- other clients of the store may act: a round of the loop names what they do before its read, between
-- its read and its write, and before the read that follows a refused write.
pub mod Revisions
pub mod Commits
pub mod Atomic
pub mod Progress
use mokei.Common.{
  ℕ, suc, ◌+◌, max, String, Option, none, some, List, [], ◌∷◌, ◌++◌, Bool, true, false,
  if◌then◌else◌, not, ◌&&◌, ◌||◌, string_key, ◌==◌, ltb, is_some,
}
use mokei.Common.OrderedMap.{OrderedMap, get, has, set, delete}
use mokei.Tasks.Record.{
  TaskRecord, TaskOwner, InputRequest, InputResponse, InputRecord, matches_owner, includes,
  is_terminal, open_input,
}
use mokei.Tasks.Changes.{Change, unchanged, patched, raises, TaskError}
use mokei.Tasks.Store.{
  TaskStore, StoreError, not_found, already_exists, conflict, Updated, updated, refuses, Created,
  created, refuses_new, create, update, remove,
}

-- A call of the store by another client.
pub data Call : Type 0 where
  creates : TaskRecord → Call
  updates : String → (TaskRecord → TaskRecord) → (expected : ℕ) → Call
  deletes : String → Call

unfoldable pub store_of : TaskStore → Created → TaskStore
store_of records (created s) = s
store_of records (refuses_new e) = records

unfoldable pub store_after : TaskStore → Updated → TaskStore
store_after records (updated s r) = s
store_after records (refuses e) = records

unfoldable pub interfere : TaskStore → Call → TaskStore
unfolding create update remove store_of store_after
interfere records (creates r) = store_of records (create records r)
interfere records (updates id patch expected) =
    store_after records (update records id patch expected)
interfere records (deletes id) = remove records id

unfoldable pub interfere_each : TaskStore → List Call → TaskStore
unfolding interfere
interfere_each records [] = records
interfere_each records (c ∷ calls) = interfere_each (interfere records c) calls

pub record Round : Type 0 where
  pub before : List Call
  pub between : List Call
  pub after : List Call
  pub now : ℕ

pub data Mutated : Type 0 where
  gone : Mutated
  kept : TaskRecord → Mutated
  wrote : TaskRecord → Mutated
  throws : TaskError → Mutated
  store_fails : StoreError → Mutated
  -- The rounds that were given are used up.
  retries : Mutated

-- The patch with its time, later than that of the record `r` that was read.
unfoldable pub stamped : ℕ → TaskRecord → (TaskRecord → TaskRecord) → TaskRecord → TaskRecord
stamped now r patch q = record (patch q) { last_updated_at = max now (suc r.last_updated_at) }

-- The `catch` of a refused write: `none` goes on with the loop.
unfoldable pub refused_as : StoreError → Option TaskRecord → Option Mutated
refused_as e none = some gone
refused_as conflict (some r) = none
refused_as (not_found id) (some r) = some (store_fails (not_found id))
refused_as (already_exists id) (some r) = some (store_fails (already_exists id))

unfoldable pub write_as : Round → String → TaskStore → Updated → TaskStore × Option Mutated
unfolding refused_as
write_as round id records (updated s q) = (s, some (wrote q))
write_as round id records (refuses e) =
    let t = interfere_each records round.after in (t, refused_as e (get t id))

unfoldable pub write_change :
    Round → String → TaskRecord → TaskStore → Change → TaskStore × Option Mutated
unfolding write_as stamped
write_change round id r records unchanged = (records, some (kept r))
write_change round id r records (raises e) = (records, some (throws e))
write_change round id r records (patched patch) =
    let m = interfere_each records round.between in
    write_as round id m (update m id (stamped round.now r patch) r.revision)

unfoldable pub read_as :
    Round
    → String
    → (TaskRecord → Change)
    → TaskStore
    → Option TaskRecord
    → TaskStore × Option Mutated
unfolding write_change
read_as round id change records none = (records, some gone)
read_as round id change records (some r) = write_change round id r records (change r)

-- One round of the loop.
unfoldable pub attempt :
    Round → String → (TaskRecord → Change) → TaskStore → TaskStore × Option Mutated
unfolding read_as
attempt round id change records =
    let m = interfere_each records round.before in read_as round id change m (get m id)

-- `#mutate`
unfoldable pub mutate :
    List Round → String → (TaskRecord → Change) → TaskStore → TaskStore × Mutated
unfolding attempt
mutate [] id change records = (records, retries)
mutate (round ∷ rest) id change records = elim ((attempt round id change records).1) [
  | some m ↦ ((attempt round id change records).0, m)
  | none ↦ mutate rest id change (attempt round id change records).0
]

-- The test of `#expire`.
unfoldable pub is_expired : ℕ → TaskRecord → Bool
is_expired now r = elim r.ttl_ms [ none ↦ false | some ttl ↦ not (ltb now (r.created_at + ttl)) ]

unfoldable pub visible_as :
    TaskStore
    → List String
    → ℕ
    → String
    → Option TaskOwner
    → Option TaskRecord
    → TaskStore × Option TaskRecord
unfolding is_expired
visible_as records hidden now id owner none = (records, none)
visible_as records hidden now id owner (some r) =
    if is_expired now r
    then (remove records id, none)
    else if includes hidden id || not (matches_owner r.owner owner)
    then (records, none)
    else (records, some r)

-- `#visible`: the record, or the error "Task not found".
unfoldable pub visible :
    TaskStore → List String → ℕ → String → Option TaskOwner → TaskStore × Option TaskRecord
unfolding visible_as
visible records hidden now id owner = visible_as records hidden now id owner (get records id)

-- `canAccess`
unfoldable pub can_access : TaskStore → List String → ℕ → String → Option TaskOwner → Bool
unfolding visible
can_access records hidden now id owner = is_some (visible records hidden now id owner).1
