-- ===== src/Subscriptions/Hub/Ending.antt =====
-- Over any history of a hub, what its registrations are told of their end.
use mokei.Common.{
  ℕ, zero, suc, ◌≤◌, ◌≡◌, refl, sym, subst, ◌∙◌, String, none, some, List, [], ◌∷◌, ◌++◌, Bool,
  true, false, ◌&&◌, not, if◌then◌else◌, arith, string_key, request_key, nat_key,
}
use mokei.Common.OrderedMap.{get, has}
use mokei.Common.Json.{Json}
use mokei.Subscriptions.Hub.State.{
  SubscriptionEntry, SubscriptionRecord, SubscriptionHub, Effect, AccessCheck, delivers,
  ServerNotification, all_records, find_in, find_at, find, new_hub,
}
use mokei.Subscriptions.Hub.FanOut.{
  ServerEvent, notification_of, wants, targets_of, deliver_each, fan_out, emit, emit_task_status,
  deliver_checked, check_ends, without, end_check, has_expired, has_number,
}
use mokei.Subscriptions.Hub.Handles.{
  is_settled, end_all_gracefully, register, Event, registers, emits, emits_task_status, ends_check,
  handle_completes, handle_closes, timer_fires, ends_all, disposes, step, run,
}
use mokei.Subscriptions.Hub.Soundness.{IsSound}
use mokei.Subscriptions.Hub.Registering.{register-IsSound}
use mokei.Subscriptions.Hub.Settling.{IsValid, endings, close-IsValid, complete-IsValid}
use mokei.Subscriptions.Hub.Timing.{fire-IsValid, complete_each-IsValid, dispose-IsValid}

endings-deliver_each :
    (k : ℕ) (matches : SubscriptionEntry → Bool) (n : ServerNotification)
    (records : List SubscriptionRecord) (t : List Effect)
    → endings k (deliver_each matches n records t) ≡ endings k t
unfolding deliver_each endings
endings-deliver_each k matches n [] t = refl
endings-deliver_each k matches n (r ∷ records) t =
    endings-deliver_each k matches n records
      (if matches r.entry then delivers r.number n ∷ t else t)
    ∙ go (matches r.entry)
  where
    go : (b : Bool) → endings k (if b then delivers r.number n ∷ t else t) ≡ endings k t
    go true = refl
    go false = refl

emit-IsValid : (e : ServerEvent) (hub : SubscriptionHub) → IsValid hub → IsValid (emit e hub)
unfolding emit fan_out
emit-IsValid e hub h = go hub.subscribed
  where
    go :
        (b : Bool)
        → IsValid
            (if b then fan_out (notification_of e) (λ entry. wants e entry.filter) hub else hub)
    go false = h
    go true = record {
      sound = h.sound;
      ended = λ n.
          subst (λ x. x ≤ (if is_settled hub.settled n then 1 else 0))
            (sym (
              endings-deliver_each n (λ entry. wants e entry.filter) (notification_of e)
                (all_records hub.connections) hub.trace))
            (h.ended n);
    }

emit_task_status-IsValid :
    (task_id : String) (task : Json) (hub : SubscriptionHub)
    → IsValid hub
    → IsValid (emit_task_status task_id task hub)
unfolding emit_task_status
emit_task_status-IsValid task_id task hub h = go hub.subscribed
  where
    go :
        (b : Bool)
        → IsValid (
            if b
            then record hub {
              checks =
                  hub.checks
                  ++ targets_of task_id
                      (record { method = "notifications/tasks"; params = some task })
                      (all_records hub.connections);
            }
            else hub)
    go false = h
    go true = record { sound = h.sound; ended = h.ended }

check_ends-IsValid :
    (checks : List AccessCheck) (k : ℕ) (allowed : Bool) (now : ℕ) (hub : SubscriptionHub)
    → IsValid hub
    → IsValid (check_ends checks k allowed now hub)
unfolding check_ends deliver_checked endings
check_ends-IsValid [] k allowed now hub h = h
check_ends-IsValid (c ∷ checks) (suc k) allowed now hub h =
    check_ends-IsValid checks k allowed now hub h
check_ends-IsValid (c ∷ checks) zero allowed now hub h = go (
    allowed
    && not (has_expired c.target.entry.expires_at now)
    && has_number (find hub.connections c.target.entry) c.target.number)
  where
    go :
        (b : Bool)
        → IsValid (
            if b
            then record hub { trace = delivers c.target.number c.notification ∷ hub.trace }
            else hub)
    go true = record { sound = h.sound; ended = h.ended }
    go false = h

-- Whether an event is not the registration under a key in use. A server registers the requests of one
-- connection under their ids, and its scheduler refuses a request whose id is that of one at work.
abbrev pub IsFresh : SubscriptionHub → Event → Type 0
IsFresh hub (registers entry now) = find hub.connections entry ≡ none
IsFresh hub e = Unit {0}

module _ (timer_delay : ℕ → ℕ) where
  -- No registration of a history is made under a key in use.
  abbrev pub AreFresh : SubscriptionHub → List Event → Type 0
  AreFresh hub [] = Unit {0}
  AreFresh hub (e ∷ es) = IsFresh hub e × AreFresh (step timer_delay hub e) es

  pub register-IsValid :
      (e : SubscriptionEntry) (now : ℕ) (hub : SubscriptionHub)
      → IsValid hub
      → IsSound (register timer_delay e now hub)
      → IsValid (register timer_delay e now hub)
  unfolding register
  register-IsValid e now hub h s = record { sound = s; ended = h.ended }

  pub step-IsValid :
      (hub : SubscriptionHub) (e : Event)
      → IsFresh hub e
      → IsValid hub
      → IsValid (step timer_delay hub e)
  unfolding step end_all_gracefully end_check
  step-IsValid hub (registers entry now) f h =
      register-IsValid entry now hub h (register-IsSound timer_delay entry now hub h.sound f)
  step-IsValid hub (emits e) f h = emit-IsValid e hub h
  step-IsValid hub (emits_task_status id task) f h = emit_task_status-IsValid id task hub h
  step-IsValid hub (ends_check k allowed now) f h =
      check_ends-IsValid hub.checks k allowed now (record hub { checks = without hub.checks k })
        (record { sound = h.sound; ended = h.ended })
  step-IsValid hub (handle_completes n) f h = complete-IsValid n hub h
  step-IsValid hub (handle_closes n) f h = close-IsValid n hub h
  step-IsValid hub (timer_fires n now) f h = fire-IsValid n now hub h
  step-IsValid hub ends_all f h = complete_each-IsValid (all_records hub.connections) hub h
  step-IsValid hub disposes f h = dispose-IsValid hub h

  pub run-IsValid :
      (hub : SubscriptionHub) (es : List Event)
      → AreFresh hub es
      → IsValid hub
      → IsValid (run timer_delay hub es)
  unfolding run
  run-IsValid hub [] f h = h
  run-IsValid hub (e ∷ es) f h =
      run-IsValid (step timer_delay hub e) es f.1 (step-IsValid hub e f.0 h)

  pub new_hub-IsValid : IsValid new_hub
  unfolding new_hub endings find find_at find_in get is_settled has
  new_hub-IsValid = record {
    sound = record {
      distinct = record { outer = tt; inner = λ c l g. cc };
      timers_distinct = tt;
      placed = λ c s r g. cc;
      timed = λ k t. cc;
      fresh = λ k le. (refl, refl);
      listed = λ live n e g u. cc;
    };
    ended = λ n. omega arith;
  }

  -- After any history of a new hub whose registrations are made under keys that are not in use: a
  -- registration that has a record is not settled, and before the disposal each that is not settled
  -- has one, under its own key. Each registration was told its end, by `complete` or by `expire`,
  -- once at most, and not before it was settled.
  pub hub-IsValid : (es : List Event) → AreFresh new_hub es → IsValid (run timer_delay new_hub es)
  hub-IsValid es f = run-IsValid new_hub es f new_hub-IsValid
