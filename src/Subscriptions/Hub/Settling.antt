-- ===== src/Subscriptions/Hub/Settling.antt =====
-- What everything that may happen to a hub does to its registrations, and how often it ends them.
use mokei.Common.{
  ℕ, ◌+◌, ◌≤◌, ◌≡◌, refl, sym, ap, subst, ◌⊎◌, Option, none, some, List, [], ◌∷◌, Bool, true, false,
  ◌||◌, ◌==◌, if◌then◌else◌, arith, inl, inr, Bool-cases, string_key, request_key, nat_key,
}
use mokei.Common.OrderedMap.{get}
use mokei.Subscriptions.Hub.State.{
  SubscriptionEntry, SubscriptionHub, Effect, delivers, completes, expires,
}
use mokei.Subscriptions.Hub.Handles.{
  is_settled, settle, add_effect, complete_found, complete, close_found, close,
}
use mokei.Subscriptions.Hub.Lookup.{AreDistinct, remove_entry-Removes}
use mokei.Subscriptions.Hub.Soundness.{IsSound, settle-IsSound}

-- How often a registration was told its end, by `complete` or by `expire`.
unfoldable pub endings : ℕ → List Effect → ℕ
endings n [] = 0
endings n (delivers m f ∷ t) = endings n t
endings n (completes m ∷ t) = endings n t + (if m == n then 1 else 0)
endings n (expires m ∷ t) = endings n t + (if m == n then 1 else 0)

-- Each handle has ended its registration once at most, and not before it was settled.
pub record IsValid (hub : SubscriptionHub) : Type 0 where
  pub sound : IsSound hub
  pub ended : (n : ℕ) → endings n hub.trace ≤ (if is_settled hub.settled n then 1 else 0)

-- The effects of an end.
abbrev pub IsEnd : ℕ → Effect → Type 0
IsEnd n e = (k : ℕ) (t : List Effect) → endings k (e ∷ t) ≡ endings k t + (if n == k then 1 else 0)

is_end : (n : ℕ) → IsEnd n (completes n)
unfolding endings
is_end n k t = refl

pub is_expiry : (n : ℕ) (b : Bool) → IsEnd n (if b then expires n else completes n)
unfolding endings
is_expiry n true k t = refl
is_expiry n false k t = refl

ends-IsValid :
    (n : ℕ) (x : Effect) (e : SubscriptionEntry) (hub v : SubscriptionHub)
    → IsEnd n x
    → IsValid hub
    → IsSound v
    → v.settled ≡ n ∷ hub.settled
    → v.trace ≡ x ∷ hub.trace
    → is_settled hub.settled n ≡ false
    → IsValid v
unfolding is_settled
ends-IsValid n x e hub v i h s p q active = record {
  sound = s;
  ended = λ k.
      subst (λ l. endings k v.trace ≤ (if is_settled l k then 1 else 0)) (sym p)
        (subst (λ t. endings k t ≤ (if n == k || is_settled hub.settled k then 1 else 0)) (sym q)
          (at k (Bool-cases (n == k))));
}
  where
    at :
        (k : ℕ)
        → ((n == k) ≡ true) ⊎ ((n == k) ≡ false)
        → endings k (x ∷ hub.trace) ≤ (if n == k || is_settled hub.settled k then 1 else 0)
    at k (inl same) =
        let number_is : n ≡ k = ground arith in
        let quiet : endings k hub.trace ≤ 0 =
          subst (λ m. endings m hub.trace ≤ 0) number_is
            (subst (λ b. endings n hub.trace ≤ (if b then 1 else 0)) active (h.ended n)) in
        ground (arith, i k hub.trace, same, quiet)
    at k (inr other) = ground (arith, i k hub.trace, other, h.ended k)

pub settle_rest :
    (n : ℕ) (e : SubscriptionEntry) (hub : SubscriptionHub)
    → AreDistinct hub.connections
    → ((settle n e hub).settled ≡ n ∷ hub.settled)
      × ((settle n e hub).trace ≡ hub.trace)
      × ((settle n e hub).entries ≡ hub.entries)
      × ((settle n e hub).subscribed ≡ hub.subscribed)
unfolding settle
settle_rest n e hub d =
    let r = remove_entry-Removes e (record hub { settled = n ∷ hub.settled }) d in
    (
      ap (λ v. v.settled) r.rest_is,
      ap (λ v. v.trace) r.rest_is,
      ap (λ v. v.entries) r.rest_is,
      ap (λ v. v.subscribed) r.rest_is,
    )

-- The end of a handle that is not settled, told to its entry.
pub tell-IsValid :
    (n : ℕ) (x : Effect) (e : SubscriptionEntry) (hub : SubscriptionHub)
    → IsEnd n x
    → IsValid hub
    → get hub.entries n ≡ some e
    → is_settled hub.settled n ≡ false
    → IsValid (add_effect x (settle n e hub))
unfolding add_effect
tell-IsValid n x e hub i h known active =
    let (p, q, _, _) = settle_rest n e hub h.sound.distinct in
    ends-IsValid n x e hub (add_effect x (settle n e hub)) i h
      (settle-IsSound n e hub h.sound known active) p (ap (λ t. x ∷ t) q) active

pub close-IsValid : (n : ℕ) (hub : SubscriptionHub) → IsValid hub → IsValid (close n hub)
unfolding close close_found is_settled
close-IsValid n hub h = go (get hub.entries n) refl
  where
    settled :
        (e : SubscriptionEntry) (b : Bool)
        → get hub.entries n ≡ some e
        → is_settled hub.settled n ≡ b
        → IsValid (if b then hub else settle n e hub)
    settled e true g q = h
    settled e false g q = record {
      sound = settle-IsSound n e hub h.sound g q;
      ended = λ k.
          let (a, b, _, _) = settle_rest n e hub h.sound.distinct in
          subst (λ l. endings k (settle n e hub).trace ≤ (if is_settled l k then 1 else 0)) (sym a)
            (subst (λ t. endings k t ≤ (if n == k || is_settled hub.settled k then 1 else 0))
              (sym b) (ground (arith, h.ended k)));
    }

    go : (o : Option SubscriptionEntry) → get hub.entries n ≡ o → IsValid (close_found o n hub)
    go none g = h
    go (some e) g = settled e (is_settled hub.settled n) g refl

pub complete-IsValid : (n : ℕ) (hub : SubscriptionHub) → IsValid hub → IsValid (complete n hub)
unfolding complete complete_found
complete-IsValid n hub h = go (get hub.entries n) refl
  where
    settled :
        (e : SubscriptionEntry) (b : Bool)
        → get hub.entries n ≡ some e
        → is_settled hub.settled n ≡ b
        → IsValid (if b then hub else add_effect (completes n) (settle n e hub))
    settled e true g q = h
    settled e false g q = tell-IsValid n (completes n) e hub (is_end n) h g q

    go : (o : Option SubscriptionEntry) → get hub.entries n ≡ o → IsValid (complete_found o n hub)
    go none g = h
    go (some e) g = settled e (is_settled hub.settled n) g refl
