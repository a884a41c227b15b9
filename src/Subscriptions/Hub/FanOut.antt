-- ===== src/Subscriptions/Hub/FanOut.antt =====
-- What a hub sends to whom: the notifications of the producers, and the status of tasks.
use mokei.Common.{
  ℕ, zero, suc, ◌*◌, String, Option, none, some, List, [], ◌∷◌, ◌++◌, Bool, false, ◌&&◌, not,
  if◌then◌else◌, leb, string_key, request_key, nat_key, ◌==◌,
}
use mokei.Common.Json.{Json, Fields, object, text}
use mokei.Tasks.Record.{includes}
use mokei.Subscriptions.Hub.State.{
  SubscriptionFilter, SubscriptionEntry, SubscriptionRecord, ServerNotification, Effect,
  AccessCheck, SubscriptionHub, all_records, find, delivers,
}

unfoldable pub deliver_each :
    (SubscriptionEntry → Bool)
    → ServerNotification
    → List SubscriptionRecord
    → List Effect
    → List Effect
deliver_each matches n [] t = t
deliver_each matches n (r ∷ records) t =
    deliver_each matches n records (if matches r.entry then delivers r.number n ∷ t else t)

unfoldable pub fan_out :
    ServerNotification → (SubscriptionEntry → Bool) → SubscriptionHub → SubscriptionHub
unfolding deliver_each all_records
fan_out n matches hub = record hub {
  trace = deliver_each matches n (all_records hub.connections) hub.trace;
}

-- The events that the producers emit.
pub data ServerEvent : Type 0 where
  resource_updated : (uri : String) → ServerEvent
  tools_changed : ServerEvent
  prompts_changed : ServerEvent
  resources_changed : ServerEvent

unfoldable pub includes_in : Option (List String) → String → Bool
unfolding includes
includes_in none a = false
includes_in (some all) a = includes all a

unfoldable pub notification_of : ServerEvent → ServerNotification
notification_of (resource_updated uri) = record {
  method = "notifications/resources/updated";
  params = some (object (Fields.field "uri" (text uri) Fields.end));
}
notification_of tools_changed = record {
  method = "notifications/tools/list_changed";
  params = none;
}
notification_of prompts_changed = record {
  method = "notifications/prompts/list_changed";
  params = none;
}
notification_of resources_changed = record {
  method = "notifications/resources/list_changed";
  params = none;
}

unfoldable pub wants : ServerEvent → SubscriptionFilter → Bool
unfolding includes_in
wants (resource_updated uri) filter = includes_in filter.resource_subscriptions uri
wants tools_changed filter = filter.tools_list_changed
wants prompts_changed filter = filter.prompts_list_changed
wants resources_changed filter = filter.resources_list_changed

-- What the hub does on an event, while it is subscribed to the producers.
unfoldable pub emit : ServerEvent → SubscriptionHub → SubscriptionHub
unfolding notification_of wants fan_out
emit e hub =
    if hub.subscribed then fan_out (notification_of e) (λ entry. wants e entry.filter) hub else hub

-- The targets of the status of a task, whose access is checked before they are sent it.
unfoldable pub targets_of : String → ServerNotification → List SubscriptionRecord → List AccessCheck
unfolding includes_in
targets_of task_id n [] = []
targets_of task_id n (r ∷ records) =
    let rest = targets_of task_id n records in
    if includes_in r.entry.accepted_task_ids task_id
    then record { target = r; notification = n } ∷ rest
    else rest

unfoldable pub emit_task_status :
    (task_id : String) → (task : Json) → SubscriptionHub → SubscriptionHub
unfolding targets_of all_records
emit_task_status task_id task hub =
    if hub.subscribed
    then record hub {
      checks =
          hub.checks
          ++ targets_of task_id (record { method = "notifications/tasks"; params = some task })
              (all_records hub.connections);
    }
    else hub

unfoldable pub has_number : Option SubscriptionRecord → ℕ → Bool
has_number none n = false
has_number (some r) n = r.number == n

unfoldable pub has_expired : Option ℕ → ℕ → Bool
has_expired none now = false
has_expired (some expires_at) now = leb (expires_at * 1000) now

-- The rest of a delivery of a task's status, after its access check.
unfoldable pub deliver_checked : AccessCheck → Bool → ℕ → SubscriptionHub → SubscriptionHub
unfolding has_expired has_number find
deliver_checked c allowed now hub =
    if allowed
      && not (has_expired c.target.entry.expires_at now)
      && has_number (find hub.connections c.target.entry) c.target.number
    then record hub { trace = delivers c.target.number c.notification ∷ hub.trace }
    else hub

-- The access check in some place ends; the checks of different targets end in any order.
unfoldable pub check_ends : List AccessCheck → ℕ → Bool → ℕ → SubscriptionHub → SubscriptionHub
unfolding deliver_checked
check_ends [] k allowed now hub = hub
check_ends (c ∷ checks) zero allowed now hub = deliver_checked c allowed now hub
check_ends (c ∷ checks) (suc k) allowed now hub = check_ends checks k allowed now hub

unfoldable pub without : List AccessCheck → ℕ → List AccessCheck
without [] k = []
without (c ∷ checks) zero = checks
without (c ∷ checks) (suc k) = c ∷ without checks k

unfoldable pub end_check : ℕ → Bool → ℕ → SubscriptionHub → SubscriptionHub
unfolding check_ends without
end_check k allowed now hub =
    check_ends hub.checks k allowed now (record hub { checks = without hub.checks k })

-- `acceptTaskIDs`, where there are tasks, by what the access checks say.
unfoldable pub accept_task_ids : (String → Bool) → List String → List String
accept_task_ids can_access [] = []
accept_task_ids can_access (id ∷ ids) =
    let rest = accept_task_ids can_access ids in if can_access id then id ∷ rest else rest
