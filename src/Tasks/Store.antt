-- ===== src/Tasks/Store.antt =====
-- packages/context-server/src/task-store.ts: `createMemoryTaskStore`. Records are copied when they go in and out,
-- so that a stored record is a value. A patch is a function on records, which gives the fields that the
-- patch has.
use mokei.Common.{
  ℕ, suc, String, Option, none, some, List, [], ◌∷◌, Bool, true, false, if◌then◌else◌, string_key,
  ◌==◌,
}
use mokei.Common.OrderedMap.{OrderedMap, get, has, set, delete}
use mokei.Tasks.Record.{
  TaskRecord, TaskStatus, working, input_required, completed, failed, cancelled,
}

abbrev pub TaskStore : Type 0
TaskStore = OrderedMap String TaskRecord

pub data StoreError : Type 0 where
  already_exists : String → StoreError
  not_found : String → StoreError
  conflict : StoreError

pub data Updated : Type 0 where
  updated : TaskStore → TaskRecord → Updated
  refuses : StoreError → Updated

pub data Created : Type 0 where
  created : TaskStore → Created
  refuses_new : StoreError → Created

unfoldable pub create : TaskStore → TaskRecord → Created
create records r =
    if has records r.task_id
    then refuses_new (already_exists r.task_id)
    else created (set records r.task_id r)

unfoldable pub patch_as :
    TaskStore → String → (TaskRecord → TaskRecord) → (expected : ℕ) → Option TaskRecord → Updated
patch_as records id patch expected none = refuses (not_found id)
patch_as records id patch expected (some r) =
    if r.revision == expected
    then (let changed = record (patch r) { task_id = id; revision = suc r.revision } in
        updated (set records id changed) changed)
    else refuses conflict

-- `update`
unfoldable pub update : TaskStore → String → (TaskRecord → TaskRecord) → (expected : ℕ) → Updated
unfolding patch_as
update records id patch expected = patch_as records id patch expected (get records id)

unfoldable pub remove : TaskStore → String → TaskStore
remove records id = delete records id

is_status : TaskStatus → TaskStatus → Bool
is_status working working = true
is_status input_required input_required = true
is_status completed completed = true
is_status failed failed = true
is_status cancelled cancelled = true
is_status _ _ = false

includes_status : List TaskStatus → TaskStatus → Bool
unfolding is_status
includes_status [] s = false
includes_status (t ∷ ts) s = if is_status t s then true else includes_status ts s

unfoldable pub list : TaskStore → List TaskStatus → List TaskRecord
unfolding includes_status
list [] filter = []
list ((id, r) ∷ rest) filter =
    if includes_status filter r.status then r ∷ list rest filter else list rest filter
