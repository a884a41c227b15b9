-- ===== src/Subscriptions/Hub/Timing.antt =====
-- The timers, the graceful end and the disposal of a hub keep it valid.
use mokei.Common.{
  ℕ, ◌≡◌, refl, sym, ap, subst, ◌∙◌, Option, none, some, List, [], ◌∷◌, Bool, true, false,
  if◌then◌else◌, leb, arith, is_some, string_key, request_key, nat_key,
}
use mokei.Common.OrderedMap.{get, delete, has-get, has-delete_le, delete-HasDistinctKeys}
use mokei.Subscriptions.Hub.State.{
  SubscriptionEntry, SubscriptionRecord, SubscriptionHub, completes, expires, all_records, find_in,
  find_at, find,
}
use mokei.Subscriptions.Hub.Handles.{
  is_settled, settle, complete, close_found, close, expire_found, timer_due, fire, complete_each,
  dispose,
}
use mokei.Subscriptions.Hub.Soundness.{IsSound}
use mokei.Subscriptions.Hub.Settling.{IsValid, tell-IsValid, complete-IsValid, is_expiry}
use mokei.Subscriptions.Hub.Listing.{
  holds-all_records, has-clear_timers, has_of_has-clear_timers, clear_timers-HasDistinctKeys,
}

-- A timer that is set is that of a registration which has not ended.
pub timer_of :
    (n due : ℕ) (hub : SubscriptionHub)
    → IsSound hub
    → get hub.timers n ≡ some due
    → (e : SubscriptionEntry) × (get hub.entries n ≡ some e) × (is_settled hub.settled n ≡ false)
unfolding find
timer_of n due hub h t =
    let (e, known, f) = h.timed n (has-get hub.timers n ∙ ap is_some t) in
    (
      e,
      known,
      (h.placed e.connection_id e.subscription_id (record { number = n; entry = e }) f).unsettled,
    )

pub without_timer-IsValid :
    (n : ℕ) (hub : SubscriptionHub)
    → IsValid hub
    → IsValid (record hub { timers = delete hub.timers n })
without_timer-IsValid n hub h = record {
  sound = record {
    distinct = h.sound.distinct;
    timers_distinct = delete-HasDistinctKeys hub.timers n h.sound.timers_distinct;
    placed = h.sound.placed;
    timed = λ k t. h.sound.timed k (ground (arith, has-delete_le hub.timers n k, t));
    fresh = h.sound.fresh;
    listed = h.sound.listed;
  };
  ended = h.ended;
}

expire-IsValid :
    (n : ℕ) (hub : SubscriptionHub) (e : SubscriptionEntry)
    → IsValid hub
    → get hub.entries n ≡ some e
    → is_settled hub.settled n ≡ false
    → IsValid (expire_found (get hub.entries n) n (close n hub))
unfolding expire_found close close_found
expire-IsValid n hub e h known active =
    subst (λ v. IsValid (expire_found (get hub.entries n) n v)) (sym closes)
      (subst (λ o. IsValid (expire_found o n (settle n e hub))) (sym known)
        (tell-IsValid n (if e.has_expire then expires n else completes n) e hub
          (is_expiry n e.has_expire) h known active))
  where
    closes : close n hub ≡ settle n e hub
    closes =
        ap (λ o. close_found o n hub) known ∙ ap (λ b. if b then hub else settle n e hub) active

pub fire-IsValid : (n now : ℕ) (hub : SubscriptionHub) → IsValid hub → IsValid (fire n now hub)
unfolding fire timer_due
fire-IsValid n now hub h = go (get hub.timers n) refl
  where
    runs :
        (due : ℕ) (b : Bool)
        → get hub.timers n ≡ some due
        → let v = record hub { timers = delete hub.timers n } in
          IsValid (if b then expire_found (get hub.entries n) n (close n v) else hub)
    runs due false t = h
    runs due true t =
        let (e, known, active) = timer_of n due hub h.sound t in
        expire-IsValid n (record hub { timers = delete hub.timers n }) e
          (without_timer-IsValid n hub h) known active

    go : (o : Option ℕ) → get hub.timers n ≡ o → IsValid (timer_due o n now hub)
    go none t = h
    go (some due) t = runs due (leb due now) t

pub complete_each-IsValid :
    (records : List SubscriptionRecord) (hub : SubscriptionHub)
    → IsValid hub
    → IsValid (complete_each records hub)
unfolding complete_each
complete_each-IsValid [] hub h = h
complete_each-IsValid (r ∷ records) hub h =
    complete_each-IsValid records (complete r.number hub) (complete-IsValid r.number hub h)

pub dispose-IsValid : (hub : SubscriptionHub) → IsValid hub → IsValid (dispose hub)
unfolding dispose find find_at find_in get
dispose-IsValid hub h = record {
  sound = record {
    distinct = record { outer = tt; inner = λ c l g. cc };
    timers_distinct =
        clear_timers-HasDistinctKeys (all_records hub.connections) hub.timers
          h.sound.timers_distinct;
    placed = λ c s r g. cc;
    timed = λ k t.
        let (e, known, f) =
          h.sound.timed k (has_of_has-clear_timers (all_records hub.connections) hub.timers k t) in
        cc (
          has-clear_timers (all_records hub.connections) hub.timers k h.sound.timers_distinct (
              holds-all_records hub.connections e.connection_id e.subscription_id
                (record { number = k; entry = e }) f),
          t,
        );
    fresh = h.sound.fresh;
    listed = λ live. cc;
  };
  ended = h.ended;
}
