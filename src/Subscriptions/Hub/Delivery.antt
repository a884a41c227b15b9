-- ===== src/Subscriptions/Hub/Delivery.antt =====
-- Who is sent what, and who is sent nothing any more.
use mokei.Common.{
  ℕ, ◌≡◌, refl, sym, ap, ◌∙◌, String, Option, none, some, List, [], ◌∷◌, Bool, true, false, ◌==◌,
  ◌&&◌, not, if◌then◌else◌, arith, inl, inr, Bool-cases, All, RequestId, string_key, request_key,
  nat_key,
}
use mokei.Common.OrderedMap.{get}
use mokei.Subscriptions.Hub.State.{
  SubscriptionEntry, SubscriptionRecord, SubscriptionHub, Effect, delivers, completes, expires,
  ServerNotification, all_records, find_at, find, new_hub,
}
use mokei.Subscriptions.Hub.FanOut.{
  ServerEvent, notification_of, wants, deliver_each, fan_out, emit, has_number,
}
use mokei.Subscriptions.Hub.Handles.{is_settled, Event, run}
use mokei.Subscriptions.Hub.Soundness.{IsSound}
use mathlib.Core.Option.{some_inj}
use mokei.Subscriptions.Hub.Ending.{AreFresh, run-IsValid, new_hub-IsValid}
use mokei.Subscriptions.Hub.Counting.{occurrences-all_records, all_records-All}
use mokei.Subscriptions.Hub.Listing.{occurrences}

-- The notifications that a registration was sent, newest first.
unfoldable pub sent_to : ℕ → List Effect → List ServerNotification
sent_to n [] = []
sent_to n (delivers m x ∷ t) = if m == n then x ∷ sent_to n t else sent_to n t
sent_to n (completes m ∷ t) = sent_to n t
sent_to n (expires m ∷ t) = sent_to n t

module _ (n : ℕ) (matches : SubscriptionEntry → Bool) (x : ServerNotification) where
  pub sent_none :
      (records : List SubscriptionRecord) (t : List Effect)
      → occurrences n records ≡ 0
      → sent_to n (deliver_each matches x records t) ≡ sent_to n t
  unfolding sent_to deliver_each occurrences
  sent_none [] t h = refl
  sent_none (r ∷ records) t h =
      sent_none records (if matches r.entry then delivers r.number x ∷ t else t) (omega arith)
      ∙ go (matches r.entry) (ground arith)
    where
      go :
          (b : Bool)
          → (r.number == n) ≡ false
          → sent_to n (if b then delivers r.number x ∷ t else t) ≡ sent_to n t
      go true other = ap (λ b. if b then x ∷ sent_to n t else sent_to n t) other
      go false other = refl

  sent_once :
      (e : SubscriptionEntry) (records : List SubscriptionRecord) (t : List Effect)
      → occurrences n records ≡ 1
      → All (λ r. r.number ≡ n → r.entry ≡ e) records
      → sent_to n (deliver_each matches x records t)
        ≡ (if matches e then x ∷ sent_to n t else sent_to n t)
  unfolding sent_to deliver_each occurrences
  sent_once e [] t h k = absurd (omega arith)
  sent_once e (r ∷ records) t h k = elim (Bool-cases (r.number == n)) [
    | inl same ↦
        let number_is : r.number ≡ n = ground arith in
        sent_none records (if matches r.entry then delivers r.number x ∷ t else t)
          (ground (arith, same, h))
        ∙ here (matches r.entry) same
        ∙ ap (λ y. if matches y then x ∷ sent_to n t else sent_to n t) (k.0 number_is)
    | inr other ↦
        sent_once e records (if matches r.entry then delivers r.number x ∷ t else t)
          (ground (arith, other, h)) k.1
        ∙ ap (λ l. if matches e then x ∷ l else l) (there (matches r.entry) other)
  ]
    where
      here :
          (b : Bool)
          → (r.number == n) ≡ true
          → sent_to n (if b then delivers r.number x ∷ t else t)
            ≡ (if b then x ∷ sent_to n t else sent_to n t)
      here true same = ap (λ c. if c then x ∷ sent_to n t else sent_to n t) same
      here false same = refl

      there :
          (b : Bool)
          → (r.number == n) ≡ false
          → sent_to n (if b then delivers r.number x ∷ t else t) ≡ sent_to n t
      there true other = ap (λ c. if c then x ∷ sent_to n t else sent_to n t) other
      there false other = refl

-- A registration that has a record is looked at once by a fan-out, under its own entry.
module _ (hub : SubscriptionHub) (h : IsSound hub) (n : ℕ) (e : SubscriptionEntry)
    (known : get hub.entries n ≡ some e) where
  same_entry :
      (c : String) (s : RequestId) (r : SubscriptionRecord)
      → find_at hub.connections c s ≡ some r
      → r.number ≡ n
      → r.entry ≡ e
  same_entry c s r f p =
      some_inj.0 (sym (h.placed c s r f).entry_is ∙ ap (get hub.entries) p ∙ known)

  pub occurrences_of :
      occurrences n (all_records hub.connections)
      ≡ (if has_number (find hub.connections e) n then 1 else 0)
  unfolding find
  occurrences_of =
      occurrences-all_records n e.connection_id e.subscription_id hub.connections h.distinct
        (λ c s r f p. (
          sym (h.placed c s r f).connection_is ∙ ap (λ y. y.connection_id) (same_entry c s r f p),
          sym (h.placed c s r f).subscription_is
              ∙ ap (λ y. y.subscription_id) (same_entry c s r f p),
        ))

  -- What is settled has no record.
  pub settled_missing :
      is_settled hub.settled n ≡ true → has_number (find hub.connections e) n ≡ false
  unfolding has_number find
  settled_missing s = go (find hub.connections e) refl
    where
      go : (o : Option SubscriptionRecord) → find hub.connections e ≡ o → has_number o n ≡ false
      go none f = refl
      go (some r) f = elim (Bool-cases (r.number == n)) [
        | inl same ↦
            let number_is : r.number ≡ n = ground arith in
            cc (
              (h.placed e.connection_id e.subscription_id r f).unsettled,
              ap (is_settled hub.settled) number_is,
              s,
            )
        | inr other ↦ other
      ]

  sent_to-emit :
      (ev : ServerEvent)
      → hub.subscribed ≡ true
      → sent_to n (emit ev hub).trace ≡ (
          if not (is_settled hub.settled n) && wants ev e.filter
          then notification_of ev ∷ sent_to n hub.trace
          else sent_to n hub.trace)
  unfolding emit fan_out has_number
  sent_to-emit ev live =
      ap
        (λ (b : Bool).
          sent_to n
            (if b then fan_out (notification_of ev) (λ y. wants ev y.filter) hub else hub).trace)
        live
      ∙ go (is_settled hub.settled n) refl
    where
      records : List SubscriptionRecord
      records = all_records hub.connections

      go :
          (b : Bool)
          → is_settled hub.settled n ≡ b
          → sent_to n (deliver_each (λ y. wants ev y.filter) (notification_of ev) records hub.trace)
            ≡ (if not b && wants ev e.filter
                then notification_of ev ∷ sent_to n hub.trace
                else sent_to n hub.trace)
      go true s =
          sent_none n (λ y. wants ev y.filter) (notification_of ev) records hub.trace
            (occurrences_of ∙ ap (λ b. if b then 1 else 0) (settled_missing s))
      go false s =
          sent_once n (λ y. wants ev y.filter) (notification_of ev) e records hub.trace
            (occurrences_of
              ∙ ap (λ o. if has_number o n then 1 else 0) (h.listed live n e known s)
              ∙ ground arith)
            (all_records-All (λ r. r.number ≡ n → r.entry ≡ e) hub.connections h.distinct
              same_entry)

-- After any history of a new hub whose registrations are made under keys that are not in use, and
-- while the hub is not disposed of: an event of a producer is sent once to each registration whose
-- handle is not settled and whose filter asks for it, and is not sent to any other.
pub run-emit :
    (timer_delay : ℕ → ℕ) (es : List Event) (ev : ServerEvent) (n : ℕ) (e : SubscriptionEntry)
    → AreFresh timer_delay new_hub es
    → get (run timer_delay new_hub es).entries n ≡ some e
    → (run timer_delay new_hub es).subscribed ≡ true
    → let hub = run timer_delay new_hub es in
      sent_to n (emit ev hub).trace ≡ (
        if not (is_settled hub.settled n) && wants ev e.filter
        then notification_of ev ∷ sent_to n hub.trace
        else sent_to n hub.trace)
run-emit timer_delay es ev n e f known live =
    let h = run-IsValid timer_delay new_hub es f (new_hub-IsValid timer_delay) in
    sent_to-emit (run timer_delay new_hub es) h.sound n e known ev live
