-- ===== src/Subscriptions/Hub/Quiet.antt =====
-- The ends of registrations send nothing to one that has ended.
use mokei.Common.{
  ℕ, ◌≡◌, refl, ap, ◌∙◌, Option, none, some, List, [], ◌∷◌, Bool, true, false, if◌then◌else◌, leb,
  arith, string_key, request_key, nat_key,
}
use mokei.Common.OrderedMap.{get, delete}
use mokei.Subscriptions.Hub.State.{
  SubscriptionEntry, SubscriptionRecord, SubscriptionHub, completes, expires,
}
use mokei.Subscriptions.Hub.Handles.{
  is_settled, settle, add_effect, complete_found, complete, close_found, close, expire_found,
  timer_due, fire, complete_each,
}
use mokei.Subscriptions.Hub.Soundness.{IsSound}
use mokei.Subscriptions.Hub.Settling.{IsValid, settle_rest, complete-IsValid}
use mokei.Subscriptions.Hub.Timing.{without_timer-IsValid}
use mokei.Subscriptions.Hub.Delivery.{sent_to}

module _ (n : ℕ) (e : SubscriptionEntry) where
  -- The registration has ended, and was sent nothing from `hub` to `v`.
  pub record Silent (hub v : SubscriptionHub) : Type 0 where
    pub known : get v.entries n ≡ some e
    pub settled : is_settled v.settled n ≡ true
    pub sent : sent_to n v.trace ≡ sent_to n hub.trace

  pub settle-Silent :
      (m : ℕ) (d : SubscriptionEntry) (hub : SubscriptionHub)
      → IsSound hub
      → Silent hub hub
      → Silent hub (settle m d hub)
  unfolding is_settled
  settle-Silent m d hub h s =
      let (p, q, r, _) = settle_rest m d hub h.distinct in
      record {
        known = ap (λ l. get l n) r ∙ s.known;
        settled = ap (λ l. is_settled l n) p ∙ ground (arith, s.settled);
        sent = ap (sent_to n) q;
      }

  pub complete-Silent :
      (m : ℕ) (hub : SubscriptionHub) → IsSound hub → Silent hub hub → Silent hub (complete m hub)
  unfolding complete complete_found add_effect sent_to
  complete-Silent m hub h s = go (get hub.entries m)
    where
      told :
          (d : SubscriptionEntry) (b : Bool)
          → Silent hub (if b then hub else add_effect (completes m) (settle m d hub))
      told d true = s
      told d false =
          let q = settle-Silent m d hub h s in
          record { known = q.known; settled = q.settled; sent = q.sent }

      go : (o : Option SubscriptionEntry) → Silent hub (complete_found o m hub)
      go none = s
      go (some d) = told d (is_settled hub.settled m)

  pub close-Silent :
      (m : ℕ) (hub : SubscriptionHub) → IsSound hub → Silent hub hub → Silent hub (close m hub)
  unfolding close close_found
  close-Silent m hub h s = go (get hub.entries m)
    where
      told : (d : SubscriptionEntry) (b : Bool) → Silent hub (if b then hub else settle m d hub)
      told d true = s
      told d false = settle-Silent m d hub h s

      go : (o : Option SubscriptionEntry) → Silent hub (close_found o m hub)
      go none = s
      go (some d) = told d (is_settled hub.settled m)

  pub expire-Silent :
      (o : Option SubscriptionEntry) (m : ℕ) (hub v : SubscriptionHub)
      → Silent hub v
      → Silent hub (expire_found o m v)
  unfolding expire_found add_effect sent_to
  expire-Silent none m hub v s = s
  expire-Silent (some d) m hub v s = go d.has_expire
    where
      go : (b : Bool) → Silent hub (add_effect (if b then expires m else completes m) v)
      go true = record { known = s.known; settled = s.settled; sent = s.sent }
      go false = record { known = s.known; settled = s.settled; sent = s.sent }

  pub fire-Silent :
      (m now : ℕ) (hub : SubscriptionHub)
      → IsValid hub
      → Silent hub hub
      → Silent hub (fire m now hub)
  unfolding fire timer_due
  fire-Silent m now hub h s = go (get hub.timers m)
    where
      v : SubscriptionHub
      v = record hub { timers = delete hub.timers m }

      due_now :
          (b : Bool)
          → Silent hub (if b then expire_found (get hub.entries m) m (close m v) else hub)
      due_now false = s
      due_now true =
          let q =
            close-Silent m v (without_timer-IsValid m hub h).sound
              (record { known = s.known; settled = s.settled; sent = refl }) in
          expire-Silent (get hub.entries m) m hub (close m v)
            (record { known = q.known; settled = q.settled; sent = q.sent })

      go : (o : Option ℕ) → Silent hub (timer_due o m now hub)
      go none = s
      go (some due) = due_now (leb due now)

  pub complete_each-Silent :
      (records : List SubscriptionRecord) (hub v : SubscriptionHub)
      → IsValid v
      → Silent hub v
      → Silent hub (complete_each records v)
  unfolding complete_each
  complete_each-Silent [] hub v h s = s
  complete_each-Silent (r ∷ records) hub v h s =
      let q =
        complete-Silent r.number v h.sound
          (record { known = s.known; settled = s.settled; sent = refl }) in
      complete_each-Silent records hub (complete r.number v) (complete-IsValid r.number v h)
        (record { known = q.known; settled = q.settled; sent = q.sent ∙ s.sent })
