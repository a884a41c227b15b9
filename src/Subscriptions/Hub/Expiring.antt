-- ===== src/Subscriptions/Hub/Expiring.antt =====
-- When the timer of a registration ends it.
use mokei.Common.{
  ℕ, ◌+◌, ◌≤◌, ◌≡◌, refl, ap, ◌∙◌, none, some, List, ◌∷◌, Bool, true, false, if◌then◌else◌, leb,
  ite, arith, string_key, request_key, nat_key,
}
use mokei.Common.OrderedMap.{OrderedMap, get, delete}
use mokei.Subscriptions.Hub.State.{SubscriptionEntry, SubscriptionHub, find, new_hub}
use mokei.Subscriptions.Hub.Handles.{
  is_settled, settle, add_effect, close_found, close, expire_found, timer_due, fire, register,
  Event, run,
}
use mokei.Subscriptions.Hub.Lookup.{remove_entry-Removes}
use mokei.Subscriptions.Hub.Soundness.{IsSound}
use mokei.Subscriptions.Hub.Registering.{register-IsSound}
use mokei.Subscriptions.Hub.Settling.{IsValid}
use mokei.Subscriptions.Hub.Timing.{timer_of, without_timer-IsValid}
use mokei.Subscriptions.Hub.Ending.{AreFresh, run-IsValid, new_hub-IsValid}
use mokei.Subscriptions.Hub.Handles.{set_timer}
use mokei.Tasks.Record.{TaskOwner}
use mokei.Subscriptions.Hub.Lookup.{remove_entry-Removes}
use mokei.Subscriptions.Hub.Registering.{registered, entries_after}
use mokei.Subscriptions.Hub.Ending.{register-IsValid}
use mokei.Common.{◌*◌, ◌-◌, ◌<◌, String-discrete, RequestId-discrete}
use mokei.Common.OrderedMap.{get-set}

find-settle :
    (n : ℕ) (e : SubscriptionEntry) (hub : SubscriptionHub)
    → IsSound hub
    → find (settle n e hub).connections e ≡ none
unfolding settle find
find-settle n e hub h =
    let r = remove_entry-Removes e (record hub { settled = n ∷ hub.settled }) h.distinct in
    r.found_is e.connection_id e.subscription_id
    ∙ go (String-discrete e.connection_id e.connection_id)
        (RequestId-discrete e.subscription_id e.subscription_id)
  where
    go :
        (a : Dec (e.connection_id ≡ e.connection_id))
        (b : Dec (e.subscription_id ≡ e.subscription_id))
        → ite a (ite b none (find hub.connections e)) (find hub.connections e) ≡ none
    go (yes p) (yes q) = refl
    go (yes p) (no q) = absurd (q refl)
    go (no p) b = absurd (p refl)

-- A timer that fires removes its registration when it is due, and does nothing before.
find-fire :
    (n due now : ℕ) (e : SubscriptionEntry) (hub : SubscriptionHub)
    → IsValid hub
    → get hub.entries n ≡ some e
    → get hub.timers n ≡ some due
    → find (fire n now hub).connections e ≡ (if leb due now then none else find hub.connections e)
unfolding fire timer_due close close_found expire_found add_effect
find-fire n due now e hub h known t =
    ap (λ o. find (timer_due o n now hub).connections e) t ∙ go (leb due now)
  where
    v : SubscriptionHub
    v = record hub { timers = delete hub.timers n }

    active : is_settled hub.settled n ≡ false
    active = let (_, _, u) = timer_of n due hub h.sound t in u

    closes : close n v ≡ settle n e v
    closes = ap (λ o. close_found o n v) known ∙ ap (λ b. if b then v else settle n e v) active

    go :
        (b : Bool)
        → find (if b then expire_found (get hub.entries n) n (close n v) else hub).connections e
          ≡ (if b then none else find hub.connections e)
    go false = refl
    go true =
        ap (λ o. find (expire_found o n (close n v)).connections e) known
        ∙ ap (λ w. find w.connections e) closes
        ∙ find-settle n e v (without_timer-IsValid n hub h).sound

get-set_timer :
    (timer_delay : ℕ → ℕ) (owner : TaskOwner) (expires_at n now : ℕ) (t : OrderedMap ℕ ℕ)
    → get (set_timer timer_delay (some owner) (some expires_at) n now t) n
      ≡ some (now + timer_delay (expires_at * 1000 - now))
unfolding set_timer
get-set_timer timer_delay owner expires_at n now t =
    get-set t n n (now + timer_delay (expires_at * 1000 - now)) ∙ ground arith

module _ (timer_delay : ℕ → ℕ) (e : SubscriptionEntry) (now : ℕ) (hub : SubscriptionHub)
    (h : IsValid hub) (free : find hub.connections e ≡ none) where
  find-fire-register :
      (owner : TaskOwner) (expires_at t : ℕ)
      → e.auth ≡ some owner
      → e.expires_at ≡ some expires_at
      → find (fire hub.issued t (register timer_delay e now hub)).connections e ≡ (
          if leb (now + timer_delay (expires_at * 1000 - now)) t
          then none
          else some (record { number = hub.issued; entry = e }))
  unfolding register
  find-fire-register owner expires_at t a x =
      let v = register timer_delay e now hub in
      find-fire hub.issued (now + timer_delay (expires_at * 1000 - now)) t e v
        (register-IsValid timer_delay e now hub h
          (register-IsSound timer_delay e now hub h.sound free))
        (own_entry) (own_timer)
      ∙ ap (λ o. if leb (now + timer_delay (expires_at * 1000 - now)) t then none else o)
          (registered timer_delay e now hub h.sound free)
    where
      own_entry : get (register timer_delay e now hub).entries hub.issued ≡ some e
      own_entry = entries_after timer_delay e now hub h.sound free hub.issued ∙ ground arith

      own_timer :
          get (register timer_delay e now hub).timers hub.issued
          ≡ some (now + timer_delay (expires_at * 1000 - now))
      own_timer =
          ap (λ o. get (set_timer timer_delay o e.expires_at hub.issued now hub.timers) hub.issued)
            a
          ∙ ap
              (λ o. get (set_timer timer_delay (some owner) o hub.issued now hub.timers) hub.issued)
              x
          ∙ get-set_timer timer_delay owner expires_at hub.issued now hub.timers

-- After any history of a new hub whose registrations are made under keys that are not in use: where
-- the platform keeps to delays from 1 to 2147483647 milliseconds, the timer of a registration for an
-- owner whose authentication expires in so many removes the registration when it fires at the time
-- of expiry or later, and does nothing before.
pub expires_on_time :
    (timer_delay : ℕ → ℕ)
    → ((d : ℕ) → 1 ≤ d → d ≤ 2147483647 → timer_delay d ≡ d)
    → (es : List Event) (e : SubscriptionEntry) (owner : TaskOwner) (expires_at now t : ℕ)
    → AreFresh timer_delay new_hub es
    → find (run timer_delay new_hub es).connections e ≡ none
    → e.auth ≡ some owner
    → e.expires_at ≡ some expires_at
    → now < expires_at * 1000
    → expires_at * 1000 ≤ now + 2147483647
    → let hub = run timer_delay new_hub es in
      find (fire hub.issued t (register timer_delay e now hub)).connections e ≡ (
        if leb (expires_at * 1000) t
        then none
        else some (record { number = hub.issued; entry = e }))
expires_on_time timer_delay documented es e owner expires_at now t f free a x later near =
    let hub = run timer_delay new_hub es in
    let due : now + timer_delay (expires_at * 1000 - now) ≡ expires_at * 1000 =
      omega (arith, documented (expires_at * 1000 - now) (omega arith) (omega arith)) in
    find-fire-register timer_delay e now hub
      (run-IsValid timer_delay new_hub es f (new_hub-IsValid timer_delay)) free owner expires_at t a
      x
    ∙ ap (λ d. if leb d t then none else some (record { number = hub.issued; entry = e })) due

-- On a platform that takes a delay of more than 2147483647 milliseconds for one of 1, as Node does,
-- and after any history of a new hub whose registrations are made under keys that are not in use: a
-- registration for an owner whose authentication expires later than that is removed by its timer one
-- millisecond after it was made.
pub expires_too_early :
    (timer_delay : ℕ → ℕ)
    → ((d : ℕ) → 2147483647 < d → timer_delay d ≡ 1)
    → (es : List Event) (e : SubscriptionEntry) (owner : TaskOwner) (expires_at now : ℕ)
    → AreFresh timer_delay new_hub es
    → find (run timer_delay new_hub es).connections e ≡ none
    → e.auth ≡ some owner
    → e.expires_at ≡ some expires_at
    → now + 2147483647 < expires_at * 1000
    → let hub = run timer_delay new_hub es in
      find (fire hub.issued (now + 1) (register timer_delay e now hub)).connections e ≡ none
expires_too_early timer_delay documented es e owner expires_at now f free a x far =
    let hub = run timer_delay new_hub es in
    let due : now + timer_delay (expires_at * 1000 - now) ≡ now + 1 =
      omega (arith, documented (expires_at * 1000 - now) (omega arith)) in
    find-fire-register timer_delay e now hub
      (run-IsValid timer_delay new_hub es f (new_hub-IsValid timer_delay)) free owner expires_at
      (now + 1) a x
    ∙ ap (λ d. if leb d (now + 1) then none else some (record { number = hub.issued; entry = e }))
        due
    ∙ ground arith
