-- ===== src/Subscriptions/Hub/Tests.antt =====
-- The hub on concrete subscriptions.
use mokei.Common.{
  ℕ, ◌+◌, ◌≤◌, ◌≡◌, refl, none, some, List, [], ◌∷◌, true, false, ◌&&◌, not, if◌then◌else◌, leb,
  arith, string_key, request_key, nat_key, ℕ_discrete,
}
use mokei.Common.OrderedMap.{get, has, delete}
use mokei.Subscriptions.Hub.State.{SubscriptionEntry, delivers, expires, find, new_hub}
use mokei.Subscriptions.Hub.FanOut.{notification_of, wants, emit, emit_task_status, end_check}
use mokei.Subscriptions.Hub.Handles.{
  is_settled, complete, close, fire, end_all_gracefully, dispose, register, Event, registers, emits,
  emits_task_status, ends_check, handle_completes, handle_closes, timer_fires, step, run,
}
use mokei.Subscriptions.Hub.Settling.{IsValid, endings}
use mokei.Subscriptions.Hub.Delivery.{sent_to}
use mokei.Subscriptions.Hub.Handles.{set_timer}
use mokei.Tasks.Record.{TaskOwner}
use mokei.Common.{◌*◌, ◌<◌, String-discrete, RequestId-discrete}
use mokei.Tasks.Record.{TaskOwner}
use mokei.Common.Json.{text}
use mokei.Subscriptions.Hub.State.{SubscriptionFilter}
use mokei.Common.{string, ℕ_discrete}
use mokei.Common.OrderedMap.{set}
use mokei.Subscriptions.Hub.State.{or_no_records}
use mokei.Subscriptions.Hub.FanOut.{tools_changed, resource_updated}
use mokei.Subscriptions.Hub.Ending.{hub-IsValid}
use mokei.Subscriptions.Hub.Delivery.{run-emit}
use mokei.Subscriptions.Hub.Silence.{sent_nothing_after_end}
use mokei.Subscriptions.Hub.Expiring.{expires_on_time, expires_too_early}

evaluation : Unit {0}
unfolding new_hub run register emit fire complete close dispose end_check emit_task_status
    end_all_gracefully step sent_to get set_timer has set delete is_settled or_no_records find wants
    notification_of endings ℕ_discrete String-discrete RequestId-discrete
evaluation = tt

abbrev owner : TaskOwner
owner = record { issuer = none; subject = "alice"; scopes = [] }

abbrev listed_tools : SubscriptionFilter
listed_tools = record {
  tools_list_changed = true;
  prompts_list_changed = false;
  resources_list_changed = false;
  resource_subscriptions = some ("file:///a" ∷ []);
}

abbrev tools : SubscriptionEntry
tools = record {
  connection_id = "c1";
  subscription_id = string "s";
  filter = listed_tools;
  accepted_task_ids = some ("t1" ∷ []);
  auth = some owner;
  expires_at = some 2000;
  has_expire = true;
}

abbrev late : SubscriptionEntry
late = record tools { connection_id = "c2"; expires_at = some 9000000 }

-- The delays of Node, but for those below 1.
node_delay : ℕ → ℕ
node_delay d = if leb d 2147483647 then d else 1

node_delay_within : (d : ℕ) → 1 ≤ d → d ≤ 2147483647 → node_delay d ≡ d
unfolding node_delay
node_delay_within d a b = ground arith

node_delay_beyond : (d : ℕ) → 2147483647 < d → node_delay d ≡ 1
unfolding node_delay
node_delay_beyond d a = ground arith

abbrev start : List Event
start = registers tools 1000000 ∷ handle_closes 0 ∷ []

abbrev history : List Event
history =
    registers tools 1000000
    ∷ registers late 1000000
    ∷ emits tools_changed
    ∷ emits_task_status "t1" (text "working")
    ∷ handle_closes 0
    ∷ ends_check 0 true 1000001
    ∷ ends_check 0 true 1000002
    ∷ emits (resource_updated "file:///a")
    ∷ timer_fires 0 2000000
    ∷ timer_fires 1 1000001
    ∷ handle_completes 1
    ∷ []

history_trace :
    (run node_delay new_hub history).trace
    ≡ expires 1
      ∷ delivers 1 (notification_of (resource_updated "file:///a"))
      ∷ delivers 1 (record { method = "notifications/tasks"; params = some (text "working") })
      ∷ delivers 1 (notification_of tools_changed)
      ∷ delivers 0 (notification_of tools_changed)
      ∷ []
unfolding evaluation node_delay
history_trace = refl

hub-IsValid_example : IsValid (run node_delay new_hub history)
unfolding evaluation node_delay
hub-IsValid_example =
    hub-IsValid node_delay history
      (refl, (refl, (tt, (tt, (tt, (tt, (tt, (tt, (tt, (tt, (tt, tt)))))))))))

run-emit_example :
    let hub = run node_delay new_hub (registers tools 1000000 ∷ []) in
    sent_to 0 (emit tools_changed hub).trace ≡ (
      if not (is_settled hub.settled 0) && wants tools_changed listed_tools
      then notification_of tools_changed ∷ sent_to 0 hub.trace
      else sent_to 0 hub.trace)
unfolding evaluation node_delay
run-emit_example =
    run-emit node_delay (registers tools 1000000 ∷ []) tools_changed 0 tools (refl, tt) refl refl

sent_nothing_after_end_example :
    let hub = run node_delay new_hub start in
    sent_to 0 (run node_delay hub (emits tools_changed ∷ [])).trace ≡ sent_to 0 hub.trace
unfolding evaluation node_delay
sent_nothing_after_end_example =
    sent_nothing_after_end node_delay start (emits tools_changed ∷ []) 0 tools (refl, (tt, tt))
      (tt, tt) refl refl

expires_on_time_example :
    let hub = run node_delay new_hub start in
    find (fire hub.issued 2000000 (register node_delay tools 1500000 hub)).connections tools ≡ (
      if leb (2000 * 1000) 2000000
      then none
      else some (record { number = hub.issued; entry = tools }))
unfolding evaluation node_delay
expires_on_time_example =
    expires_on_time node_delay node_delay_within start tools owner 2000 1500000 2000000
      (refl, (tt, tt)) refl refl refl (omega arith) (omega arith)

expires_too_early_example :
    let hub = run node_delay new_hub start in
    find (fire hub.issued (1000000 + 1) (register node_delay late 1000000 hub)).connections late
    ≡ none
unfolding evaluation node_delay
expires_too_early_example =
    expires_too_early node_delay node_delay_beyond start late owner 9000000 1000000 (refl, (tt, tt))
      refl refl refl (omega arith)
