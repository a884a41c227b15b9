-- ===== src/Tasks/Access/Tests.antt =====
-- A task of one owner, and the calls of another.
use mokei.Common.{◌≡◌, refl, none, some, [], ◌∷◌, false, String-discrete}
use mokei.Common.OrderedMap.{get, has, set}
use mokei.Tasks.Record.{TaskOwner, matches_owner, same_issuer, every_in, includes}
use mokei.Tasks.Store.{TaskStore, create}
use mokei.Tasks.Manager.{can_access, is_expired, visible}
use mokei.Tasks.Access.{NewTask, new_record, create_task, update_task, cancel_task}
use mokei.Tasks.Access.Policy.{MayReach, FindsNothing, others_find_no_task}
use mokei.Common.{◌↔◌, ◌⊎◌, true}

abbrev alice : TaskOwner
alice = record { issuer = none; subject = "alice"; scopes = "tasks" ∷ [] }

abbrev bob : TaskOwner
bob = record { issuer = none; subject = "bob"; scopes = "tasks" ∷ [] }

abbrev report : NewTask
report = record {
  task_id = "t1";
  tool_name = "report";
  capabilities = record { can_sample = false; can_elicit = false; has_roots = false };
  owner = some alice;
  resume_data = none;
  request_meta = none;
}

abbrev store : TaskStore
store = ("t1", new_record (some 1000) 100 0 report) ∷ []

evaluation : Unit {0}
unfolding create_task create new_record get has set matches_owner same_issuer every_in includes
    is_expired String-discrete
evaluation = tt

bob_has_no_access : can_access store [] 500 "t1" (some bob) ≡ false
unfolding evaluation can_access visible
bob_has_no_access = refl

others_find_no_task_example :
    ((can_access store [] 500 "t1" (some bob) ≡ true) ↔ MayReach store [] 500 "t1" (some bob))
    × (MayReach store [] 500 "t1" (some bob)
        ⊎ (FindsNothing store 500 "t1" (update_task [] store [] 500 "t1" (some bob) [])
            × FindsNothing store 500 "t1" (cancel_task [] store [] 500 "t1" (some bob))))
unfolding has
others_find_no_task_example = others_find_no_task [] store [] 500 "t1" (some bob) [] (refl, tt)

alice_may : can_access store [] 500 "t1" (some alice) ≡ true
unfolding evaluation can_access visible
alice_may = refl
