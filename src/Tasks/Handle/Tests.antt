-- ===== src/Tasks/Handle/Tests.antt =====
-- A task that its work cancels, while another client of the store writes to it.
use mokei.Common.{refl, none, some, [], ◌∷◌, true, false, List, String-discrete}
use mokei.Common.OrderedMap.{get, has, set}
use mokei.Tasks.Record.{TaskRecord, working}
use mokei.Tasks.Changes.{change, unless_terminal}
use mokei.Tasks.Store.{TaskStore, update, patch_as}
use mokei.Tasks.Manager.{
  Round, updates, mutate, attempt, read_as, write_change, write_as, refused_as, stamped, interfere,
  interfere_each, store_after,
}
use mokei.Tasks.Handle.{cancel_from_handle, unless_aborted, has_written}
use mokei.Tasks.Handle.Cancelling.{IsCancelledBy, cancel_from_handle-IsCancelledBy}

abbrev import_task : TaskRecord
import_task = record {
  task_id = "t7";
  revision = 4;
  status = working;
  status_message = none;
  created_at = 100;
  last_updated_at = 900;
  ttl_ms = none;
  poll_interval_ms = none;
  owner = none;
  tool_name = "import";
  capabilities = record { can_sample = false; can_elicit = false; has_roots = true };
  request_meta = none;
  resume_data = none;
  result = none;
  error = none;
  inputs = [];
}

abbrev tasks : TaskStore
tasks = ("t7", import_task) ∷ []

abbrev two_rounds : List Round
two_rounds =
    record {
      before = [];
      between = updates "t7" (λ q. record q { status_message = some "row 10" }) 4 ∷ [];
      after = [];
      now = 950;
    }
    ∷ record { before = []; between = []; after = []; now = 960 }
    ∷ []

cancel_from_handle-IsCancelledBy_example :
    IsCancelledBy "t7" (cancel_from_handle false false two_rounds "t7" tasks).0
unfolding has get set cancel_from_handle unless_aborted has_written mutate attempt read_as
    write_change write_as refused_as stamped interfere interfere_each store_after update patch_as
    change unless_terminal String-discrete
cancel_from_handle-IsCancelledBy_example =
    cancel_from_handle-IsCancelledBy false two_rounds "t7" tasks (refl, tt) ((tt, tt), (tt, tt))
      refl
