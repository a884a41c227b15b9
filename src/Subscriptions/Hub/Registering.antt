-- ===== src/Subscriptions/Hub/Registering.antt =====
-- A registration under a key that is not in use keeps the registry, the handles and the timers of a
-- hub in agreement.
use mokei.Common.{
  ℕ, ◌+◌, ◌*◌, ◌-◌, ◌≡◌, refl, sym, ap, subst, ◌∙◌, ◌⊎◌, String, Option, none, some, true, false,
  ◌==◌, ite, arith, inl, inr, Bool-cases, RequestId, string_key, request_key, nat_key, ℕ_discrete,
  String-discrete, RequestId-discrete,
}
use mokei.Common.OrderedMap.{
  OrderedMap, get, has, set, HasDistinctKeys, get-set, has-set, set-HasDistinctKeys,
}
use mathlib.Core.Option.{some_inj}
use mokei.Tasks.Record.{TaskOwner}
use mokei.Subscriptions.Hub.State.{
  SubscriptionEntry, SubscriptionRecord, SubscriptionHub, or_no_records, find_at, find,
}
use mokei.Subscriptions.Hub.Handles.{set_timer, register}
use mokei.Subscriptions.Hub.Lookup.{at_key, find_at-set, AreDistinct-set}
use mokei.Subscriptions.Hub.Soundness.{IsPlaced, IsSound}

module _ (timer_delay : ℕ → ℕ) where
  set_timer-HasDistinctKeys :
      (auth : Option TaskOwner) (expires_at : Option ℕ) (n now : ℕ) (t : OrderedMap ℕ ℕ)
      → HasDistinctKeys t
      → HasDistinctKeys (set_timer timer_delay auth expires_at n now t)
  unfolding set_timer
  set_timer-HasDistinctKeys none at n now t d = d
  set_timer-HasDistinctKeys (some a) none n now t d = d
  set_timer-HasDistinctKeys (some a) (some x) n now t d =
      set-HasDistinctKeys t n (now + timer_delay (x * 1000 - now)) d

  -- Only the timer of the new registration is new.
  has-set_timer :
      (auth : Option TaskOwner) (expires_at : Option ℕ) (n now : ℕ) (t : OrderedMap ℕ ℕ) (k : ℕ)
      → (n == k) ≡ false
      → has (set_timer timer_delay auth expires_at n now t) k ≡ true
      → has t k ≡ true
  unfolding set_timer
  has-set_timer none at n now t k other h = h
  has-set_timer (some a) none n now t k other h = h
  has-set_timer (some a) (some x) n now t k other h =
      ground (arith, has-set t n k (now + timer_delay (x * 1000 - now)), other, h)

  module _ (e : SubscriptionEntry) (now : ℕ) (hub : SubscriptionHub) (h : IsSound hub)
      (free : find hub.connections e ≡ none) where
    abbrev pub record_of : SubscriptionRecord
    record_of = record { number = hub.issued; entry = e }

    abbrev pub after : SubscriptionHub
    after = register timer_delay e now hub

    found_after :
        (c : String) (s : RequestId)
        → find_at after.connections c s
          ≡ at_key e.connection_id e.subscription_id c s
              (some record_of)
              (find_at hub.connections c s)
    unfolding register
    found_after c s = find_at-set hub.connections e.connection_id c e.subscription_id s record_of

    pub entries_after :
        (k : ℕ) → get after.entries k ≡ ite (ℕ_discrete hub.issued k) (some e) (get hub.entries k)
    unfolding register
    entries_after k = get-set hub.entries hub.issued k e

    known_is_old :
        (k : ℕ) (x : SubscriptionEntry) → get hub.entries k ≡ some x → (hub.issued == k) ≡ false
    known_is_old k x g = elim (Bool-cases (hub.issued == k)) [
      | inl same ↦
          let number_is : hub.issued ≡ k = ground arith in
          cc (ap (get hub.entries) number_is, (h.fresh hub.issued (omega arith)).0, g)
      | inr other ↦ other
    ]

    pub keeps_entry :
        (k : ℕ) (x : SubscriptionEntry) → get hub.entries k ≡ some x → get after.entries k ≡ some x
    keeps_entry k x g = entries_after k ∙ ground (arith, known_is_old k x g, g)

    pub registered : find after.connections e ≡ some record_of
    unfolding find
    registered = found_after e.connection_id e.subscription_id ∙ ground (arith)

    -- A record that is there stays, since its key is not that of the new entry.
    keeps_record :
        (x : SubscriptionEntry) (r : SubscriptionRecord)
        → find hub.connections x ≡ some r
        → find after.connections x ≡ some r
    unfolding find
    keeps_record x r f =
        found_after x.connection_id x.subscription_id
        ∙ go (String-discrete e.connection_id x.connection_id)
            (RequestId-discrete e.subscription_id x.subscription_id)
      where
        go :
            (a : Dec (e.connection_id ≡ x.connection_id))
            (b : Dec (e.subscription_id ≡ x.subscription_id))
            → ite a (ite b (some record_of) (find hub.connections x)) (find hub.connections x)
              ≡ some r
        go (yes p) (yes q) =
            let same : find hub.connections e ≡ some r =
              ap (λ c. find_at hub.connections c e.subscription_id) p
              ∙ ap (find_at hub.connections x.connection_id) q
              ∙ f in
            cc (same, free)
        go (yes p) (no q) = f
        go (no p) b = f

    after-IsPlaced :
        (c : String) (s : RequestId) (r : SubscriptionRecord)
        → find_at after.connections c s ≡ some r
        → IsPlaced after.entries after.settled c s r
    unfolding register
    after-IsPlaced c s r f =
        go (String-discrete e.connection_id c) (RequestId-discrete e.subscription_id s)
          (sym (found_after c s) ∙ f)
      where
        old : find_at hub.connections c s ≡ some r → IsPlaced after.entries after.settled c s r
        old g =
            let p = h.placed c s r g in
            record {
              connection_is = p.connection_is;
              subscription_is = p.subscription_is;
              entry_is = keeps_entry r.number r.entry p.entry_is;
              unsettled = p.unsettled;
            }

        new :
            e.connection_id ≡ c
            → e.subscription_id ≡ s
            → IsPlaced after.entries after.settled c s record_of
        new p q = record {
          connection_is = p;
          subscription_is = q;
          entry_is = entries_after hub.issued ∙ ground arith;
          unsettled = (h.fresh hub.issued (omega arith)).1;
        }

        go :
            (a : Dec (e.connection_id ≡ c)) (b : Dec (e.subscription_id ≡ s))
            → ite a
                (ite b (some record_of) (find_at hub.connections c s))
                (find_at hub.connections c s)
              ≡ some r
            → IsPlaced after.entries after.settled c s r
        go (yes p) (yes q) g =
            subst (IsPlaced after.entries after.settled c s) (some_inj.0 g) (new p q)
        go (yes p) (no q) g = old g
        go (no p) b g = old g

    -- A handle of the hub after the registration is the new one, or it was there before.
    old_or_new :
        (k : ℕ) (x : SubscriptionEntry)
        → get after.entries k ≡ some x
        → ((hub.issued ≡ k) × (e ≡ x)) ⊎ (get hub.entries k ≡ some x)
    old_or_new k x g = go (ℕ_discrete hub.issued k) (sym (entries_after k) ∙ g)
      where
        go :
            (d : Dec (hub.issued ≡ k))
            → ite d (some e) (get hub.entries k) ≡ some x
            → ((hub.issued ≡ k) × (e ≡ x)) ⊎ (get hub.entries k ≡ some x)
        go (yes p) q = inl (p, some_inj.0 q)
        go (no p) q = inr q

    inner_distinct :
        (o : Option (OrderedMap RequestId SubscriptionRecord))
        → get hub.connections e.connection_id ≡ o
        → HasDistinctKeys (or_no_records o)
    unfolding or_no_records
    inner_distinct none g = tt
    inner_distinct (some l) g = h.distinct.inner e.connection_id l g

    pub register-IsSound : IsSound (register timer_delay e now hub)
    unfolding register
    register-IsSound = record {
      distinct =
          AreDistinct-set hub.connections e.connection_id
            (set (or_no_records (get hub.connections e.connection_id)) e.subscription_id record_of)
            h.distinct
            (set-HasDistinctKeys (or_no_records (get hub.connections e.connection_id))
              e.subscription_id record_of
              (inner_distinct (get hub.connections e.connection_id) refl));
      timers_distinct =
          set_timer-HasDistinctKeys e.auth e.expires_at hub.issued now hub.timers h.timers_distinct;
      placed = after-IsPlaced;
      timed = λ k set. elim (Bool-cases (hub.issued == k)) [
        | inl same ↦
            let number_is : hub.issued ≡ k = ground arith in
            (
              e,
              ap (get after.entries) (sym number_is) ∙ entries_after hub.issued ∙ ground arith,
              subst (λ n. find after.connections e ≡ some (record { number = n; entry = e }))
                  number_is registered,
            )
        | inr other ↦
            let (x, g, f) =
              h.timed k (has-set_timer e.auth e.expires_at hub.issued now hub.timers k other set) in
            (x, keeps_entry k x g, keeps_record x (record { number = k; entry = x }) f)
      ];
      fresh =
          λ k le. (entries_after k ∙ ground (arith, h.fresh k, le), (h.fresh k (omega arith)).1);
      listed = λ live k x g u. elim (old_or_new k x g) [
        | inl (p, q) ↦
            subst (λ n. find after.connections x ≡ some (record { number = n; entry = x })) p
              (subst
                (λ y. find after.connections y ≡ some (record { number = hub.issued; entry = y })) q
                registered)
        | inr old ↦ keeps_record x (record { number = k; entry = x }) (h.listed live k x old u)
      ];
    }
