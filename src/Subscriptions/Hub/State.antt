-- ===== src/Subscriptions/Hub/State.antt =====
-- What a hub holds, and how its entries are found and removed.
use mokei.Common.{
  ℕ, String, Option, none, some, List, [], ◌∷◌, ◌++◌, Bool, true, RequestId, string_key,
  request_key, nat_key,
}
use mokei.Common.OrderedMap.{OrderedMap, get, set, delete}
use mokei.Common.Json.{Json}
use mokei.Tasks.Record.{TaskOwner}

-- What the hub reads of a filter; an absent flag is `false`.
pub record SubscriptionFilter : Type 0 where
  pub tools_list_changed : Bool
  pub prompts_list_changed : Bool
  pub resources_list_changed : Bool
  pub resource_subscriptions : Option (List String)

-- `has_expire` tells whether `expire` is given; `expires_at` is in seconds.
pub record SubscriptionEntry : Type 0 where
  pub connection_id : String
  pub subscription_id : RequestId
  pub filter : SubscriptionFilter
  pub accepted_task_ids : Option (List String)
  pub auth : Option TaskOwner
  pub expires_at : Option ℕ
  pub has_expire : Bool

pub record SubscriptionRecord : Type 0 where
  pub number : ℕ
  pub entry : SubscriptionEntry

pub record ServerNotification : Type 0 where
  pub method : String
  pub params : Option Json

pub data Effect : Type 0 where
  delivers : (number : ℕ) → ServerNotification → Effect
  completes : (number : ℕ) → Effect
  expires : (number : ℕ) → Effect

-- A delivery of the status of a task that waits for its access check.
pub record AccessCheck : Type 0 where
  pub target : SubscriptionRecord
  pub notification : ServerNotification

abbrev pub Connections : Type 0
Connections = OrderedMap String (OrderedMap RequestId SubscriptionRecord)

-- `entries` holds what each handle closes over, `settled` the handles that are settled, and `timers`
-- the time at which each timer that is set will fire.
pub record SubscriptionHub : Type 0 where
  pub connections : Connections
  pub entries : OrderedMap ℕ SubscriptionEntry
  pub settled : List ℕ
  pub timers : OrderedMap ℕ ℕ
  pub issued : ℕ
  pub subscribed : Bool
  pub checks : List AccessCheck
  pub trace : List Effect

unfoldable pub new_hub : SubscriptionHub
new_hub = record {
  connections = [];
  entries = [];
  settled = [];
  timers = [];
  issued = 0;
  subscribed = true;
  checks = [];
  trace = [];
}

unfoldable pub or_no_records :
    Option (OrderedMap RequestId SubscriptionRecord) → OrderedMap RequestId SubscriptionRecord
or_no_records none = []
or_no_records (some records) = records

-- `clearTimeout` on the timer of a record, if there is one.
unfoldable pub clear_timer : Option SubscriptionRecord → OrderedMap ℕ ℕ → OrderedMap ℕ ℕ
clear_timer none timers = timers
clear_timer (some r) timers = delete timers r.number

-- A connection after a removal from it: without records it goes too.
unfoldable pub put_back :
    String → OrderedMap RequestId SubscriptionRecord → Connections → Connections
put_back id [] connections = delete connections id
put_back id (r ∷ records) connections = set connections id (r ∷ records)

unfoldable pub remove_found :
    Option (OrderedMap RequestId SubscriptionRecord)
    → SubscriptionEntry
    → SubscriptionHub
    → SubscriptionHub
unfolding clear_timer put_back
remove_found none entry hub = hub
remove_found (some by_subscription) entry hub = record hub {
  timers = clear_timer (get by_subscription entry.subscription_id) hub.timers;
  connections =
      put_back entry.connection_id (delete by_subscription entry.subscription_id) hub.connections;
}

unfoldable pub remove_entry : SubscriptionEntry → SubscriptionHub → SubscriptionHub
unfolding remove_found
remove_entry entry hub = remove_found (get hub.connections entry.connection_id) entry hub

unfoldable pub records_of : OrderedMap RequestId SubscriptionRecord → List SubscriptionRecord
records_of [] = []
records_of ((id, r) ∷ records) = r ∷ records_of records

unfoldable pub all_records : Connections → List SubscriptionRecord
unfolding records_of
all_records [] = []
all_records ((id, records) ∷ connections) = records_of records ++ all_records connections

unfoldable pub find_in :
    Option (OrderedMap RequestId SubscriptionRecord) → RequestId → Option SubscriptionRecord
find_in none id = none
find_in (some records) id = get records id

unfoldable pub find_at : Connections → String → RequestId → Option SubscriptionRecord
unfolding find_in
find_at connections connection_id id = find_in (get connections connection_id) id

-- The record under the key of an entry.
unfoldable pub find : Connections → SubscriptionEntry → Option SubscriptionRecord
unfolding find_at
find connections entry = find_at connections entry.connection_id entry.subscription_id
