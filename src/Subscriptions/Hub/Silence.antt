-- ===== src/Subscriptions/Hub/Silence.antt =====
-- A registration that has ended is sent nothing any more.
use mokei.Common.{
  ℕ, zero, suc, ◌≡◌, refl, ap, subst, ◌∙◌, ◌⊎◌, Option, none, some, List, [], ◌∷◌, ◌++◌, Bool, true,
  false, ◌==◌, ◌&&◌, not, if◌then◌else◌, arith, inl, inr, Bool-cases, string_key, request_key,
  nat_key,
}
use mokei.Common.OrderedMap.{get}
use mokei.Subscriptions.Hub.State.{
  SubscriptionEntry, SubscriptionRecord, SubscriptionHub, AccessCheck, delivers, all_records, find,
  new_hub,
}
use mokei.Subscriptions.Hub.FanOut.{
  ServerEvent, notification_of, wants, targets_of, fan_out, emit, emit_task_status, deliver_checked,
  check_ends, without, end_check, has_expired, has_number,
}
use mokei.Subscriptions.Hub.Handles.{
  is_settled, end_all_gracefully, dispose, Event, registers, emits, emits_task_status, ends_check,
  handle_completes, handle_closes, timer_fires, ends_all, disposes, step, run,
}
use mokei.Subscriptions.Hub.Soundness.{IsSound}
use mokei.Subscriptions.Hub.Settling.{IsValid}
use mokei.Subscriptions.Hub.Ending.{IsFresh, AreFresh, step-IsValid, run-IsValid, new_hub-IsValid}
use mokei.Subscriptions.Hub.Delivery.{sent_to, sent_none, occurrences_of, settled_missing}
use mokei.Subscriptions.Hub.Registering.{keeps_entry}
use mokei.Subscriptions.Hub.Quiet.{
  Silent, complete-Silent, close-Silent, fire-Silent, complete_each-Silent,
}

-- What has a record is not settled.
record_active :
    (hub : SubscriptionHub) (x : SubscriptionEntry) (k : ℕ) (o : Option SubscriptionRecord)
    → IsSound hub
    → find hub.connections x ≡ o
    → has_number o k ≡ true
    → is_settled hub.settled k ≡ false
unfolding find has_number
record_active hub x k none h f q = cc
record_active hub x k (some r) h f q =
    let number_is : r.number ≡ k = ground arith in
    subst (λ m. is_settled hub.settled m ≡ false) number_is
      (h.placed x.connection_id x.subscription_id r f).unsettled

module _ (n : ℕ) (e : SubscriptionEntry) where
  emit-Silent :
      (ev : ServerEvent) (hub : SubscriptionHub)
      → IsSound hub
      → Silent n e hub hub
      → Silent n e hub (emit ev hub)
  unfolding emit fan_out
  emit-Silent ev hub h s = go hub.subscribed
    where
      go :
          (b : Bool)
          → Silent n e hub
              (if b then fan_out (notification_of ev) (λ y. wants ev y.filter) hub else hub)
      go false = s
      go true = record {
        known = s.known;
        settled = s.settled;
        sent =
            sent_none n (λ y. wants ev y.filter) (notification_of ev) (all_records hub.connections)
              hub.trace
              (occurrences_of hub h n e s.known
                ∙ ap (λ b. if b then 1 else 0) (settled_missing hub h n e s.known s.settled));
      }

  check_ends-Silent :
      (checks : List AccessCheck) (k : ℕ) (allowed : Bool) (now : ℕ) (hub : SubscriptionHub)
      → IsSound hub
      → Silent n e hub hub
      → Silent n e hub (check_ends checks k allowed now hub)
  unfolding check_ends deliver_checked sent_to
  check_ends-Silent [] k allowed now hub h s = s
  check_ends-Silent (c ∷ checks) (suc k) allowed now hub h s =
      check_ends-Silent checks k allowed now hub h s
  check_ends-Silent (c ∷ checks) zero allowed now hub h s =
      go
        (allowed
          && not (has_expired c.target.entry.expires_at now)
          && has_number (find hub.connections c.target.entry) c.target.number)
        refl
    where
      go :
          (b : Bool)
          → (allowed
              && not (has_expired c.target.entry.expires_at now)
              && has_number (find hub.connections c.target.entry) c.target.number)
            ≡ b
          → Silent n e hub (
              if b
              then record hub { trace = delivers c.target.number c.notification ∷ hub.trace }
              else hub)
      go false q = s
      go true q = record {
        known = s.known;
        settled = s.settled;
        sent = at (Bool-cases (c.target.number == n));
      }
        where
          has_record : has_number (find hub.connections c.target.entry) c.target.number ≡ true
          has_record = ground (arith, q)

          at :
              ((c.target.number == n) ≡ true) ⊎ ((c.target.number == n) ≡ false)
              → sent_to n (delivers c.target.number c.notification ∷ hub.trace)
                ≡ sent_to n hub.trace
          at (inl same) =
              let number_is : c.target.number ≡ n = ground arith in
              cc (
                record_active hub c.target.entry c.target.number
                    (find hub.connections c.target.entry) h refl has_record,
                ap (is_settled hub.settled) number_is,
                s.settled,
              )
          at (inr other) =
              ap (λ b. if b then c.notification ∷ sent_to n hub.trace else sent_to n hub.trace)
                other

  step-Silent :
      (timer_delay : ℕ → ℕ) (hub : SubscriptionHub) (ev : Event)
      → IsFresh hub ev
      → IsValid hub
      → Silent n e hub hub
      → Silent n e hub (step timer_delay hub ev)
  unfolding step end_all_gracefully end_check dispose emit_task_status
  step-Silent timer_delay hub (registers d now) f h s = record {
    known = keeps_entry timer_delay d now hub h.sound f n e s.known;
    settled = s.settled;
    sent = refl;
  }
  step-Silent timer_delay hub (emits ev) f h s = emit-Silent ev hub h.sound s
  step-Silent timer_delay hub (emits_task_status id task) f h s = go hub.subscribed
    where
      go :
          (b : Bool)
          → Silent n e hub (
              if b
              then record hub {
                checks =
                    hub.checks
                    ++ targets_of id
                        (record { method = "notifications/tasks"; params = some task })
                        (all_records hub.connections);
              }
              else hub)
      go false = s
      go true = record { known = s.known; settled = s.settled; sent = refl }
  step-Silent timer_delay hub (ends_check k allowed now) f h s =
      let q =
        check_ends-Silent hub.checks k allowed now (record hub { checks = without hub.checks k })
          h.sound (record { known = s.known; settled = s.settled; sent = refl }) in
      record { known = q.known; settled = q.settled; sent = q.sent }
  step-Silent timer_delay hub (handle_completes m) f h s = complete-Silent n e m hub h.sound s
  step-Silent timer_delay hub (handle_closes m) f h s = close-Silent n e m hub h.sound s
  step-Silent timer_delay hub (timer_fires m now) f h s = fire-Silent n e m now hub h s
  step-Silent timer_delay hub ends_all f h s =
      complete_each-Silent n e (all_records hub.connections) hub hub h s
  step-Silent timer_delay hub disposes f h s = record {
    known = s.known;
    settled = s.settled;
    sent = refl;
  }

  run-Silent :
      (timer_delay : ℕ → ℕ) (es : List Event) (hub : SubscriptionHub)
      → AreFresh timer_delay hub es
      → IsValid hub
      → get hub.entries n ≡ some e
      → is_settled hub.settled n ≡ true
      → sent_to n (run timer_delay hub es).trace ≡ sent_to n hub.trace
  unfolding run
  run-Silent timer_delay [] hub f h k s = refl
  run-Silent timer_delay (ev ∷ es) hub f h k s =
      let q =
        step-Silent timer_delay hub ev f.0 h (record { known = k; settled = s; sent = refl }) in
      run-Silent timer_delay es (step timer_delay hub ev) f.1
        (step-IsValid timer_delay hub ev f.0 h) q.known q.settled
      ∙ q.sent

-- In any history of a new hub whose registrations are made under keys that are not in use: once the
-- handle of a registration is settled, because it was completed or closed or its time ran out, the
-- registration is sent nothing more, whatever happens from there on, deliveries that waited for an
-- access check included.
pub sent_nothing_after_end :
    (timer_delay : ℕ → ℕ) (before after : List Event) (n : ℕ) (e : SubscriptionEntry)
    → AreFresh timer_delay new_hub before
    → AreFresh timer_delay (run timer_delay new_hub before) after
    → get (run timer_delay new_hub before).entries n ≡ some e
    → is_settled (run timer_delay new_hub before).settled n ≡ true
    → let hub = run timer_delay new_hub before in
      sent_to n (run timer_delay hub after).trace ≡ sent_to n hub.trace
sent_nothing_after_end timer_delay before after n e f g known settled =
    run-Silent n e timer_delay after (run timer_delay new_hub before) g
      (run-IsValid timer_delay new_hub before f (new_hub-IsValid timer_delay)) known settled
