-- ===== src/Tasks/Tests.antt =====
-- A task that asks for a name: the request is answered, or withdrawn, while another client of the store
-- writes to the same task.
use mokei.Common.{
  ◌≡◌, ◌≢◌, refl, String, none, some, List, [], ◌∷◌, true, false, String-discrete, string_key,
  ℕ_discrete,
}
use mokei.Common.Json.{text, field, end, ℤ-discrete}
use mokei.Common.OrderedMap.{OrderedMap, get, has, set}
use mokei.Rpc.Message.{member}
use mokei.Tasks.Record.{
  TaskRecord, InputRequest, InputResponse, working, input_required, elicitation, open_input,
  open_as, latest, settle_latest, response_matches, has_member, missing_capability,
}
use mokei.Tasks.Changes.{
  requests_input, answers, cancels, apply, apply_each, applied, change, unless_terminal,
  request_input, input_as, new_input, declared_input, find_same, find_reused, is_issued, answer,
  answer_as, answer_with, accept_each, accept_one, accept_as, covers, check, check_entry,
  find_input, outcome_of, input_requests, waits, withdraws,
}
use mokei.Tasks.Changes.History.{IsHistory, IsValid, last_open}
use mokei.Tasks.Changes.Validity.{apply_each-IsValid}
use mokei.Tasks.Changes.Waiting.{outcome_kept_by}
use mokei.Tasks.Store.{TaskStore}
use mokei.Tasks.Manager.{Round, mutate, updates}
use mokei.Tasks.Manager.Atomic.{IsAtomic}
use mokei.Tasks.Manager.Commits.{mutate-IsAtomic}
use mokei.Tasks.Manager.Progress.{ended, has_quiet_round, mutate_ends}

abbrev fresh : TaskRecord
fresh = record {
  task_id = "t1";
  revision = 0;
  status = working;
  status_message = none;
  created_at = 1000;
  last_updated_at = 1000;
  ttl_ms = some 3600000;
  poll_interval_ms = some 1000;
  owner = none;
  tool_name = "greet";
  capabilities = record { can_sample = false; can_elicit = true; has_roots = false };
  request_meta = none;
  resume_data = none;
  result = none;
  error = none;
  inputs = [];
}

abbrev questions : OrderedMap String InputRequest
questions = ("name", record { method = elicitation; params = text "Your name?" }) ∷ []

abbrev reply : OrderedMap String InputResponse
reply = ("name", record { members = field "action" (text "accept") end }) ∷ []

fresh-IsValid : IsValid fresh
unfolding IsHistory last_open
fresh-IsValid = record { history = tt; fits = refl }

apply_each-IsValid_example :
    IsValid (apply_each (requests_input false questions ∷ answers reply ∷ cancels ∷ []) fresh)
apply_each-IsValid_example =
    apply_each-IsValid (requests_input false questions ∷ answers reply ∷ cancels ∷ []) fresh
      fresh-IsValid

evaluation : Unit {0}
unfolding apply_each apply applied change unless_terminal request_input input_as new_input
    declared_input find_same find_reused is_issued answer answer_as answer_with accept_each
    accept_one accept_as covers check check_entry find_input outcome_of input_requests open_input
    open_as latest settle_latest response_matches has_member missing_capability get has set member
    String-discrete ℕ_discrete ℤ-discrete
evaluation = tt

asked_status : (apply_each (requests_input false questions ∷ []) fresh).status ≡ input_required
unfolding evaluation
asked_status = refl

answered_status :
    (apply_each (requests_input false questions ∷ answers reply ∷ []) fresh).status ≡ working
unfolding evaluation
answered_status = refl

abbrev answered_task : TaskRecord
answered_task = apply_each (requests_input false questions ∷ answers reply ∷ []) fresh

answered_task_ends : check 1 (some answered_task) ≢ waits
unfolding evaluation
answered_task_ends h = cc

outcome_kept_by_example :
    check 1 (some (apply_each (withdraws 1 ∷ cancels ∷ []) answered_task))
    ≡ check 1 (some answered_task)
outcome_kept_by_example =
    outcome_kept_by 1 (withdraws 1 ∷ cancels ∷ []) answered_task answered_task_ends

abbrev store : TaskStore
store = ("t1", fresh) ∷ []

-- A first round in which another client writes in between, and a quiet one.
abbrev rounds : List Round
rounds =
    record {
      before = [];
      between = updates "t1" (λ q. record q { status_message = some "half way" }) 0 ∷ [];
      after = [];
      now = 1000;
    }
    ∷ record { before = []; between = []; after = []; now = 1000 }
    ∷ []

mutate-IsAtomic_example :
    IsAtomic "t1"
      (change cancels)
      store
      (mutate rounds "t1" (change cancels) store).0
      (mutate rounds "t1" (change cancels) store).1
unfolding has
mutate-IsAtomic_example =
    mutate-IsAtomic rounds "t1" (change cancels) store (refl, tt) ((tt, tt), (tt, tt))

mutate_ends_example : ended (mutate rounds "t1" (change cancels) store).1 ≡ true
unfolding has_quiet_round
mutate_ends_example = mutate_ends rounds "t1" (change cancels) store refl
