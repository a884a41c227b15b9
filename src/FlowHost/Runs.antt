-- ===== src/FlowHost/Runs.antt =====
-- `createMemoryRunStore` of packages/flow-host/src/run-store.ts, with the states of a run from
-- packages/flow-client/src/types.ts. Records are copied when they go in and out, so that a stored
-- record is a value. A patch is a function on records, which gives the fields that the patch has.
use mokei.Common.{
  ℕ, suc, String, Option, none, some, List, [], ◌∷◌, Bool, true, false, if◌then◌else◌, string_key,
  ◌==◌, ltb, take,
}
use mokei.Common.Json.{Json}
use mokei.Common.OrderedMap.{OrderedMap, get, has, set, delete}

pub data RunState : Type 0 where
  awaiting_approval working input_required denied completed failed cancelled : RunState

-- `details` are the fields that nothing here reads: the label, the plan, the request, the result.
pub record RunRecord : Type 0 where
  pub run_id : String
  pub state : RunState
  pub created_at : ℕ
  pub updated_at : ℕ
  pub trace_id : Option String
  pub task_id : Option String
  pub revision : ℕ
  pub details : Json

unfoldable pub is_terminal_run_state : RunState → Bool
is_terminal_run_state denied = true
is_terminal_run_state completed = true
is_terminal_run_state failed = true
is_terminal_run_state cancelled = true
is_terminal_run_state _ = false

abbrev pub terminal_run_states : List RunState
terminal_run_states = denied ∷ completed ∷ failed ∷ cancelled ∷ []

abbrev pub RunStore : Type 0
RunStore = OrderedMap String RunRecord

pub data RunStoreError : Type 0 where
  already_exists : String → RunStoreError
  not_found : String → RunStoreError
  conflict : RunStoreError

pub data Created : Type 0 where
  created : RunStore → Created
  refuses_new : RunStoreError → Created

pub data Updated : Type 0 where
  updated : RunStore → RunRecord → Updated
  refuses : RunStoreError → Updated

unfoldable pub create : RunStore → RunRecord → Created
create records r =
    if has records r.run_id
    then refuses_new (already_exists r.run_id)
    else created (set records r.run_id r)

unfoldable pub patch_as :
    RunStore → String → (RunRecord → RunRecord) → (expected : ℕ) → Option RunRecord → Updated
patch_as records id patch expected none = refuses (not_found id)
patch_as records id patch expected (some r) =
    if r.revision == expected
    then (let changed = record (patch r) { run_id = id; revision = suc r.revision } in
        updated (set records id changed) changed)
    else refuses conflict

-- `update`
unfoldable pub update : RunStore → String → (RunRecord → RunRecord) → (expected : ℕ) → Updated
unfolding patch_as
update records id patch expected = patch_as records id patch expected (get records id)

unfoldable pub is_state : RunState → RunState → Bool
is_state awaiting_approval awaiting_approval = true
is_state working working = true
is_state input_required input_required = true
is_state denied denied = true
is_state completed completed = true
is_state failed failed = true
is_state cancelled cancelled = true
is_state _ _ = false

unfoldable pub includes_state : List RunState → RunState → Bool
unfolding is_state
includes_state [] s = false
includes_state (t ∷ ts) s = if is_state t s then true else includes_state ts s

unfoldable pub in_states : Option (List RunState) → RunRecord → Bool
unfolding includes_state
in_states none r = true
in_states (some states) r = includes_state states r.state

unfoldable pub is_before : Option ℕ → RunRecord → Bool
is_before none r = true
is_before (some time) r = ltb r.updated_at time

unfoldable pub matching : Option (List RunState) → Option ℕ → RunStore → List RunRecord
unfolding in_states is_before
matching states before [] = []
matching states before ((id, r) ∷ rest) =
    if in_states states r
    then if is_before before r then r ∷ matching states before rest else matching states before rest
    else matching states before rest

-- The sort by descending `createdAt`, which is stable.
unfoldable pub insert_run : RunRecord → List RunRecord → List RunRecord
insert_run r [] = r ∷ []
insert_run r (s ∷ rest) =
    if ltb r.created_at s.created_at then s ∷ insert_run r rest else r ∷ s ∷ rest

unfoldable pub newest_first : List RunRecord → List RunRecord
unfolding insert_run
newest_first [] = []
newest_first (r ∷ rest) = insert_run r (newest_first rest)

unfoldable pub limited : Option ℕ → List RunRecord → List RunRecord
limited none runs = runs
limited (some limit) runs = take limit runs

-- `list`; the limit is a natural number, so the test for it never fails.
unfoldable pub list :
    RunStore → Option (List RunState) → (limit updated_before : Option ℕ) → List RunRecord
unfolding matching newest_first limited
list records states limit updated_before =
    limited limit (newest_first (matching states updated_before records))

unfoldable pub remove : RunStore → String → RunStore
remove records id = delete records id
