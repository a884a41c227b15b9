-- ===== src/Subscriptions/Hub/Handles.antt =====
-- The handles of a hub, its timers, its end, and everything that may happen to it.
use mokei.Common.{
  ℕ, suc, ◌+◌, ◌-◌, ◌*◌, String, Option, none, some, List, [], ◌∷◌, Bool, false, ◌||◌,
  if◌then◌else◌, leb, string_key, request_key, nat_key, ◌==◌,
}
use mokei.Common.OrderedMap.{OrderedMap, get, set, delete}
use mokei.Common.Json.{Json}
use mokei.Tasks.Record.{TaskOwner}
use mokei.Subscriptions.Hub.State.{
  SubscriptionEntry, SubscriptionRecord, Effect, SubscriptionHub, or_no_records, remove_entry,
  all_records, completes, expires,
}
use mokei.Subscriptions.Hub.FanOut.{ServerEvent, emit, emit_task_status, end_check}

unfoldable pub is_settled : List ℕ → ℕ → Bool
is_settled [] n = false
is_settled (m ∷ settled) n = m == n || is_settled settled n

-- What `complete` and `close` of a handle do first.
unfoldable pub settle : ℕ → SubscriptionEntry → SubscriptionHub → SubscriptionHub
unfolding remove_entry
settle n entry hub = remove_entry entry (record hub { settled = n ∷ hub.settled })

unfoldable pub add_effect : Effect → SubscriptionHub → SubscriptionHub
add_effect e hub = record hub { trace = e ∷ hub.trace }

unfoldable pub complete_found : Option SubscriptionEntry → ℕ → SubscriptionHub → SubscriptionHub
unfolding is_settled settle add_effect
complete_found none n hub = hub
complete_found (some entry) n hub =
    if is_settled hub.settled n then hub else add_effect (completes n) (settle n entry hub)

-- `complete` of the handle with a number.
unfoldable pub complete : ℕ → SubscriptionHub → SubscriptionHub
unfolding complete_found
complete n hub = complete_found (get hub.entries n) n hub

unfoldable pub close_found : Option SubscriptionEntry → ℕ → SubscriptionHub → SubscriptionHub
unfolding is_settled settle
close_found none n hub = hub
close_found (some entry) n hub = if is_settled hub.settled n then hub else settle n entry hub

unfoldable pub close : ℕ → SubscriptionHub → SubscriptionHub
unfolding close_found
close n hub = close_found (get hub.entries n) n hub

-- What a timer tells an entry after it has closed its handle.
unfoldable pub expire_found : Option SubscriptionEntry → ℕ → SubscriptionHub → SubscriptionHub
unfolding add_effect
expire_found none n hub = hub
expire_found (some entry) n hub =
    add_effect (if entry.has_expire then expires n else completes n) hub

-- The platform runs the timer of a handle, if it is set and its time has come.
unfoldable pub timer_due : Option ℕ → ℕ → ℕ → SubscriptionHub → SubscriptionHub
unfolding expire_found close
timer_due none n now hub = hub
timer_due (some due) n now hub =
    if leb due now
    then expire_found (get hub.entries n) n (close n (record hub { timers = delete hub.timers n }))
    else hub

unfoldable pub fire : ℕ → ℕ → SubscriptionHub → SubscriptionHub
unfolding timer_due
fire n now hub = timer_due (get hub.timers n) n now hub

unfoldable pub complete_each : List SubscriptionRecord → SubscriptionHub → SubscriptionHub
unfolding complete
complete_each [] hub = hub
complete_each (r ∷ records) hub = complete_each records (complete r.number hub)

unfoldable pub end_all_gracefully : SubscriptionHub → SubscriptionHub
unfolding complete_each all_records
end_all_gracefully hub = complete_each (all_records hub.connections) hub

unfoldable pub clear_timers : List SubscriptionRecord → OrderedMap ℕ ℕ → OrderedMap ℕ ℕ
clear_timers [] timers = timers
clear_timers (r ∷ records) timers = clear_timers records (delete timers r.number)

unfoldable pub dispose : SubscriptionHub → SubscriptionHub
unfolding clear_timers all_records
dispose hub = record hub {
  subscribed = false;
  timers = clear_timers (all_records hub.connections) hub.timers;
  connections = [];
}

-- What can happen to a hub.
pub data Event : Type 0 where
  registers : SubscriptionEntry → (now : ℕ) → Event
  emits : ServerEvent → Event
  emits_task_status : (task_id : String) → (task : Json) → Event
  ends_check : (place : ℕ) → (allowed : Bool) → (now : ℕ) → Event
  handle_completes : (number : ℕ) → Event
  handle_closes : (number : ℕ) → Event
  timer_fires : (number : ℕ) → (now : ℕ) → Event
  ends_all : Event
  disposes : Event

-- `setTimeout` of the platform: after how many milliseconds a timer fires that was set with a delay.
module _ (timer_delay : ℕ → ℕ) where
  unfoldable pub set_timer : Option TaskOwner → Option ℕ → ℕ → ℕ → OrderedMap ℕ ℕ → OrderedMap ℕ ℕ
  set_timer (some auth) (some expires_at) n now timers =
      set timers n (now + timer_delay (expires_at * 1000 - now))
  set_timer _ _ n now timers = timers

  unfoldable pub register : SubscriptionEntry → ℕ → SubscriptionHub → SubscriptionHub
  unfolding set_timer or_no_records
  register entry now hub = record hub {
    connections = set hub.connections entry.connection_id (
        set (or_no_records (get hub.connections entry.connection_id)) entry.subscription_id
          (record { number = hub.issued; entry = entry }));
    entries = set hub.entries hub.issued entry;
    timers = set_timer entry.auth entry.expires_at hub.issued now hub.timers;
    issued = suc hub.issued;
  }

  unfoldable pub step : SubscriptionHub → Event → SubscriptionHub
  unfolding register emit emit_task_status end_check complete close fire end_all_gracefully dispose
  step hub (registers entry now) = register entry now hub
  step hub (emits e) = emit e hub
  step hub (emits_task_status task_id task) = emit_task_status task_id task hub
  step hub (ends_check place allowed now) = end_check place allowed now hub
  step hub (handle_completes n) = complete n hub
  step hub (handle_closes n) = close n hub
  step hub (timer_fires n now) = fire n now hub
  step hub ends_all = end_all_gracefully hub
  step hub disposes = dispose hub

  unfoldable pub run : SubscriptionHub → List Event → SubscriptionHub
  unfolding step
  run hub [] = hub
  run hub (e ∷ es) = run (step hub e) es
