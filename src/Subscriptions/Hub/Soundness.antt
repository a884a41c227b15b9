-- ===== src/Subscriptions/Hub/Soundness.antt =====
-- When the registry of a hub, its handles and its timers agree, and that a registration and the
-- settlement of a handle keep them so.
use mokei.Common.{
  ℕ, ◌≤◌, ◌≡◌, refl, sym, ap, subst, ◌∙◌, String, Option, none, some, List, ◌∷◌, Bool, true, false,
  ◌||◌, ◌==◌, ite, arith, inl, inr, Bool-cases, RequestId, string_key, request_key, nat_key,
  ℕ_discrete, String-discrete, RequestId-discrete,
}
use mokei.Common.OrderedMap.{
  OrderedMap, get, has, HasDistinctKeys, has-delete, has-delete_le, delete-HasDistinctKeys,
}
use mathlib.Core.Option.{some_inj}
use mokei.Subscriptions.Hub.State.{
  SubscriptionEntry, SubscriptionRecord, Connections, SubscriptionHub, clear_timer, remove_entry,
  find_at, find,
}
use mokei.Subscriptions.Hub.Handles.{is_settled, settle}
use mokei.Subscriptions.Hub.Lookup.{at_key, AreDistinct, Removes, remove_entry-Removes}

abbrev pub Entries : Type 0
Entries = OrderedMap ℕ SubscriptionEntry

-- A record stands under the key of its entry, and its handle is not settled.
pub record IsPlaced (entries : Entries) (settled : List ℕ) (c : String) (s : RequestId)
    (r : SubscriptionRecord) : Type 0 where
  pub connection_is : r.entry.connection_id ≡ c
  pub subscription_is : r.entry.subscription_id ≡ s
  pub entry_is : get entries r.number ≡ some r.entry
  pub unsettled : is_settled settled r.number ≡ false

-- `timed`: a timer that is set is that of a record. `listed`: before the disposal, each handle that
-- is not settled has its record.
pub record Sound (connections : Connections) (entries : Entries) (settled : List ℕ)
    (timers : OrderedMap ℕ ℕ) (issued : ℕ) (subscribed : Bool) : Type 0 where
  pub distinct : AreDistinct connections
  pub timers_distinct : HasDistinctKeys timers
  pub placed :
      (c : String) (s : RequestId) (r : SubscriptionRecord)
      → find_at connections c s ≡ some r
      → IsPlaced entries settled c s r
  pub timed :
      (n : ℕ)
      → has timers n ≡ true
      → (e : SubscriptionEntry) × (get entries n ≡ some e)
        × (find connections e ≡ some (record { number = n; entry = e }))
  pub fresh : (n : ℕ) → issued ≤ n → (get entries n ≡ none) × (is_settled settled n ≡ false)
  pub listed :
      subscribed ≡ true
      → (n : ℕ) (e : SubscriptionEntry) → get entries n ≡ some e
      → is_settled settled n ≡ false
      → find connections e ≡ some (record { number = n; entry = e })

abbrev pub IsSound : SubscriptionHub → Type 0
IsSound h = Sound h.connections h.entries h.settled h.timers h.issued h.subscribed

has-clear_timer :
    (o : Option SubscriptionRecord) (t : OrderedMap ℕ ℕ) (k : ℕ)
    → has (clear_timer o t) k ≡ true
    → has t k ≡ true
unfolding clear_timer
has-clear_timer none t k h = h
has-clear_timer (some r) t k h = ground (arith, has-delete_le t r.number k, h)

clear_timer-HasDistinctKeys :
    (o : Option SubscriptionRecord) (t : OrderedMap ℕ ℕ)
    → HasDistinctKeys t
    → HasDistinctKeys (clear_timer o t)
unfolding clear_timer
clear_timer-HasDistinctKeys none t d = d
clear_timer-HasDistinctKeys (some r) t d = delete-HasDistinctKeys t r.number d

-- The timer of the record that is removed is not set.
cleared :
    (r : SubscriptionRecord) (o : Option SubscriptionRecord) (t : OrderedMap ℕ ℕ)
    → HasDistinctKeys t
    → o ≡ some r
    → has (clear_timer o t) r.number ≡ false
unfolding clear_timer
cleared r o t d e =
    ap (λ x. has (clear_timer x t) r.number) e
    ∙ has-delete t r.number r.number d
    ∙ go (ℕ_discrete r.number r.number)
  where
    go : (x : Dec (r.number ≡ r.number)) → ite x false (has t r.number) ≡ false
    go (yes _) = refl
    go (no f) = absurd (f refl)

-- The record of a settled handle goes.
module _ (m v : Connections) (entries : Entries) (settled : List ℕ) (timers : OrderedMap ℕ ℕ)
    (issued : ℕ) (subscribed : Bool) (n : ℕ) (e : SubscriptionEntry)
    (found_is : (c : String) (s : RequestId)
      → find_at v c s ≡ at_key e.connection_id e.subscription_id c s none (find_at m c s))
    (h : Sound m entries settled timers issued subscribed) (known : get entries n ≡ some e) where
  removed-IsPlaced :
      (c : String) (s : RequestId) (r : SubscriptionRecord)
      → find_at v c s ≡ some r
      → IsPlaced entries (n ∷ settled) c s r
  unfolding is_settled
  removed-IsPlaced c s r f =
      go (String-discrete e.connection_id c) (RequestId-discrete e.subscription_id s)
        (sym (found_is c s) ∙ f)
    where
      keep :
          ((e.connection_id ≡ c) → e.subscription_id ≡ s → ⊥)
          → find_at m c s ≡ some r
          → IsPlaced entries (n ∷ settled) c s r
      keep apart g = elim (Bool-cases (n == r.number)) [
        | inl same ↦
            let p = h.placed c s r g in
            let number_is : n ≡ r.number = ground arith in
            let entry_is : e ≡ r.entry = cc (known, ap (get entries) number_is, p.entry_is) in
            absurd (
              apart (ap (λ x. x.connection_id) entry_is ∙ p.connection_is)
                (ap (λ x. x.subscription_id) entry_is ∙ p.subscription_is))
        | inr other ↦
            let p = h.placed c s r g in
            record {
              connection_is = p.connection_is;
              subscription_is = p.subscription_is;
              entry_is = p.entry_is;
              unsettled = ap (λ b. b || is_settled settled r.number) other ∙ p.unsettled;
            }
      ]

      go :
          (x : Dec (e.connection_id ≡ c)) (y : Dec (e.subscription_id ≡ s))
          → ite x (ite y none (find_at m c s)) (find_at m c s) ≡ some r
          → IsPlaced entries (n ∷ settled) c s r
      go (yes p) (yes q) g = cc
      go (yes p) (no q) g = keep (λ a b. q b) g
      go (no p) y g = keep (λ a b. p a) g

  -- A record of another key stays.
  removed-found :
      (e' : SubscriptionEntry) (o : Option SubscriptionRecord)
      → find m e' ≡ o
      → (find m e ≡ o → find v e' ≡ o)
      → find v e' ≡ o
  unfolding find
  removed-found e' o f other =
      go (String-discrete e.connection_id e'.connection_id)
        (RequestId-discrete e.subscription_id e'.subscription_id) refl refl
    where
      go :
          (x : Dec (e.connection_id ≡ e'.connection_id))
          (y : Dec (e.subscription_id ≡ e'.subscription_id))
          → String-discrete e.connection_id e'.connection_id ≡ x
          → RequestId-discrete e.subscription_id e'.subscription_id ≡ y
          → find v e' ≡ o
      go (yes p) (yes q) a b =
          other (ap (λ c. find_at m c e.subscription_id) p ∙ ap (find_at m e'.connection_id) q ∙ f)
      go (yes p) (no q) a b =
          found_is e'.connection_id e'.subscription_id
          ∙ ap
              (λ x.
                ite x
                  (ite (RequestId-discrete e.subscription_id e'.subscription_id) none (find m e'))
                  (find m e'))
              a
          ∙ ap (λ y. ite y none (find m e')) b
          ∙ f
      go (no p) y a b =
          found_is e'.connection_id e'.subscription_id
          ∙ ap
              (λ x.
                ite x
                  (ite (RequestId-discrete e.subscription_id e'.subscription_id) none (find m e'))
                  (find m e'))
              a
          ∙ f

  removed-Sound :
      is_settled settled n ≡ false
      → AreDistinct v
      → Sound v entries (n ∷ settled) (clear_timer (find m e) timers) issued subscribed
  unfolding is_settled
  removed-Sound active d = record {
    distinct = d;
    timers_distinct = clear_timer-HasDistinctKeys (find m e) timers h.timers_distinct;
    placed = removed-IsPlaced;
    timed = λ k set.
        let (e', g, f) = h.timed k (has-clear_timer (find m e) timers k set) in
        (
          e',
          g,
          removed-found e' (some (record { number = k; entry = e' })) f (λ q.
              let gone =
                cleared (record { number = k; entry = e' }) (find m e) timers h.timers_distinct q in
              cc (gone, set)),
        );
    fresh = λ k le. (
      (h.fresh k le).0,
      elim (Bool-cases (n == k)) [
        | inl same ↦
            let number_is : n ≡ k = ground arith in
            let missing = (h.fresh k le).0 in cc (known, ap (get entries) number_is, missing)
        | inr other ↦ ap (λ b. b || is_settled settled k) other ∙ (h.fresh k le).1
      ],
    );
    listed = λ live k e' g u.
        let unsettled : is_settled settled k ≡ false = ground (arith, u) in
        let f = h.listed live k e' g unsettled in
        removed-found e' (some (record { number = k; entry = e' })) f (λ q.
          let w = h.listed live n e known active in
          let number_is : n ≡ k = ap (λ r. r.number) (some_inj.0 (sym w ∙ q)) in
          let twice : is_settled (n ∷ settled) k ≡ true = ground (arith, number_is) in
          cc (twice, u));
  }

pub settle-IsSound :
    (n : ℕ) (e : SubscriptionEntry) (hub : SubscriptionHub)
    → IsSound hub
    → get hub.entries n ≡ some e
    → is_settled hub.settled n ≡ false
    → IsSound (settle n e hub)
unfolding settle
settle-IsSound n e hub h known active = subst IsSound (sym r.rest_is) (
    subst (λ t. Sound v.connections hub.entries (n ∷ hub.settled) t hub.issued hub.subscribed)
      (sym r.timers_is)
      (removed-Sound hub.connections v.connections hub.entries hub.settled hub.timers hub.issued
        hub.subscribed n e r.found_is h known active r.distinct))
  where
    start : SubscriptionHub
    start = record hub { settled = n ∷ hub.settled }

    v : SubscriptionHub
    v = remove_entry e start

    r : Removes e start v
    r = remove_entry-Removes e start h.distinct
