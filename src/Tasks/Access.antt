-- ===== src/Tasks/Access.antt =====
-- packages/context-server/src/task-manager.ts: the methods that a client of the server reaches: `create`, `get`,
-- `update` and `cancel`. Each but the first looks the task up by `#visible` before it acts.
pub mod Owners
pub mod Policy
mod Tests
use mokei.Common.{ℕ, String, Option, none, some, List, [], ◌∷◌, Bool, string_key}
use mokei.Common.Json.{Json}
use mokei.Common.OrderedMap.{OrderedMap}
use mokei.Tasks.Record.{TaskRecord, TaskOwner, InputResponse, Capabilities, working}
use mokei.Tasks.Changes.{TaskError, change, answers, cancels}
use mokei.Tasks.Store.{TaskStore, StoreError, Created, create}
use mokei.Tasks.Manager.{
  Round, Mutated, gone, kept, wrote, throws, store_fails, retries, mutate, visible,
}

pub data Reply : Type 0 where
  done : Reply
  task_not_found : Reply
  refused : TaskError → Reply
  store_error : StoreError → Reply
  waiting : Reply

unfoldable pub reply_to : TaskStore × Mutated → TaskStore × Reply
reply_to (s, gone) = (s, task_not_found)
reply_to (s, kept r) = (s, done)
reply_to (s, wrote r) = (s, done)
reply_to (s, throws e) = (s, refused e)
reply_to (s, store_fails e) = (s, store_error e)
reply_to (s, retries) = (s, waiting)

unfoldable pub when_visible :
    TaskStore × Option TaskRecord → (TaskStore → TaskStore × Mutated) → TaskStore × Reply
unfolding reply_to
when_visible (s, none) act = (s, task_not_found)
when_visible (s, some r) act = reply_to (act s)

-- `update`
unfoldable pub update_task :
    List Round
    → TaskStore
    → List String
    → (now : ℕ) → String
    → Option TaskOwner
    → OrderedMap String InputResponse
    → TaskStore × Reply
unfolding when_visible
update_task rounds records hidden now id owner responses =
    when_visible (visible records hidden now id owner)
      (mutate rounds id (change (answers responses)))

-- `cancel`
unfoldable pub cancel_task :
    List Round → TaskStore → List String → (now : ℕ) → String → Option TaskOwner → TaskStore × Reply
unfolding when_visible
cancel_task rounds records hidden now id owner =
    when_visible (visible records hidden now id owner) (mutate rounds id (change cancels))

-- What `create` is given, with the id that `crypto.randomUUID` made.
pub record NewTask : Type 0 where
  pub task_id : String
  pub tool_name : String
  pub capabilities : Capabilities
  pub owner : Option TaskOwner
  pub resume_data : Option Json
  pub request_meta : Option Json

unfoldable pub new_record : (ttl_ms : Option ℕ) → (poll : ℕ) → (now : ℕ) → NewTask → TaskRecord
new_record ttl_ms poll now task = record {
  task_id = task.task_id;
  revision = 0;
  status = working;
  status_message = none;
  created_at = now;
  last_updated_at = now;
  ttl_ms = ttl_ms;
  poll_interval_ms = some poll;
  owner = task.owner;
  tool_name = task.tool_name;
  capabilities = task.capabilities;
  request_meta = task.request_meta;
  resume_data = task.resume_data;
  result = none;
  error = none;
  inputs = [];
}

-- The store's part of `create`.
unfoldable pub create_task :
    TaskStore → (ttl_ms : Option ℕ) → (poll : ℕ) → (now : ℕ) → NewTask → Created
unfolding new_record
create_task records ttl_ms poll now task = create records (new_record ttl_ms poll now task)
