-- ===== src/Subscriptions/Hub/Lookup.antt =====
-- What a lookup by connection and id finds after an entry has been put in or removed.
use mokei.Common.{
  ◌≡◌, refl, sym, ap, subst, ◌∙◌, String, Option, none, some, [], ◌∷◌, ite, RequestId, string_key,
  request_key, nat_key, String-discrete, RequestId-discrete,
}
use mokei.Common.OrderedMap.{
  OrderedMap, get, set, delete, HasDistinctKeys, get-set, get-delete, set-HasDistinctKeys,
  delete-HasDistinctKeys,
}
use mokei.Subscriptions.Hub.State.{
  SubscriptionEntry, SubscriptionRecord, Connections, SubscriptionHub, or_no_records, clear_timer,
  put_back, remove_found, remove_entry, find_in, find_at, find,
}

-- `x` at the key of a connection and an id, `y` at the others.
abbrev pub at_key {ℓ} : {A : Type ℓ} → String → RequestId → String → RequestId → A → A → A
at_key c s c' s' x y = ite (String-discrete c c') (ite (RequestId-discrete s s') x y) y

pub find_at-set :
    (m : Connections) (c c' : String) (s s' : RequestId) (r : SubscriptionRecord)
    → find_at (set m c (set (or_no_records (get m c)) s r)) c' s'
      ≡ at_key c s c' s' (some r) (find_at m c' s')
unfolding find_at find_in or_no_records get
find_at-set m c c' s s' r =
    ap (λ o. find_in o s') (get-set m c c' (set (or_no_records (get m c)) s r))
    ∙ go (String-discrete c c')
  where
    inside :
        (o : Option (OrderedMap RequestId SubscriptionRecord))
        → get (set (or_no_records o) s r) s' ≡ ite (RequestId-discrete s s') (some r) (find_in o s')
    inside none = get-set [] s s' r
    inside (some l) = get-set l s s' r

    go :
        (d : Dec (c ≡ c'))
        → find_in (ite d (some (set (or_no_records (get m c)) s r)) (get m c')) s'
          ≡ ite d
              (ite (RequestId-discrete s s') (some r) (find_in (get m c') s'))
              (find_in (get m c') s')
    go (yes e) =
        inside (get m c) ∙ ap (λ x. ite (RequestId-discrete s s') (some r) (find_in (get m x) s')) e
    go (no e) = refl

find_at-put_back :
    (m : Connections) (c c' : String) (s s' : RequestId)
    (l : OrderedMap RequestId SubscriptionRecord)
    → HasDistinctKeys m
    → HasDistinctKeys l
    → get m c ≡ some l
    → find_at (put_back c (delete l s) m) c' s' ≡ at_key c s c' s' none (find_at m c' s')
unfolding find_at find_in put_back get
find_at-put_back m c c' s s' l d k h = go (delete l s) refl
  where
    below :
        (t : OrderedMap RequestId SubscriptionRecord)
        → delete l s ≡ t
        → get t s' ≡ ite (RequestId-discrete s s') none (get l s')
    below t e = ap (λ x. get x s') (sym e) ∙ get-delete l s s' k

    here :
        (x : Dec (c ≡ c')) (t : OrderedMap RequestId SubscriptionRecord)
        → delete l s ≡ t
        → ite x (get t s') (find_in (get m c') s')
          ≡ ite x
              (ite (RequestId-discrete s s') none (find_in (get m c') s'))
              (find_in (get m c') s')
    here (yes e) t q =
        below t q
        ∙ ap (λ o. ite (RequestId-discrete s s') none (find_in o s')) (sym h ∙ ap (get m) e)
    here (no e) t q = refl

    lift :
        (x : Dec (c ≡ c')) (o : Option (OrderedMap RequestId SubscriptionRecord))
        → find_in (ite x o (get m c')) s' ≡ ite x (find_in o s') (find_in (get m c') s')
    lift (yes e) o = refl
    lift (no e) o = refl

    go :
        (t : OrderedMap RequestId SubscriptionRecord)
        → delete l s ≡ t
        → find_in (get (put_back c t m) c') s'
          ≡ ite
              (String-discrete c c')
              (ite (RequestId-discrete s s') none (find_in (get m c') s'))
              (find_in (get m c') s')
    go [] q =
        ap (λ o. find_in o s') (get-delete m c c' d)
        ∙ lift (String-discrete c c') none
        ∙ here (String-discrete c c') [] q
    go (r ∷ t) q =
        ap (λ o. find_in o s') (get-set m c c' (r ∷ t))
        ∙ lift (String-discrete c c') (some (r ∷ t))
        ∙ here (String-discrete c c') (r ∷ t) q

-- No key stands twice in a hub.
pub record AreDistinct (m : Connections) : Type 0 where
  pub outer : HasDistinctKeys m
  pub inner :
      (c : String) (l : OrderedMap RequestId SubscriptionRecord)
      → get m c ≡ some l
      → HasDistinctKeys l

pub AreDistinct-set :
    (m : Connections) (c : String) (l : OrderedMap RequestId SubscriptionRecord)
    → AreDistinct m
    → HasDistinctKeys l
    → AreDistinct (set m c l)
AreDistinct-set m c l d k = record {
  outer = set-HasDistinctKeys m c l d.outer;
  inner = λ c' l' e. go c' l' (String-discrete c c') (sym (get-set m c c' l) ∙ e);
}
  where
    go :
        (c' : String) (l' : OrderedMap RequestId SubscriptionRecord) (x : Dec (c ≡ c'))
        → ite x (some l) (get m c') ≡ some l'
        → HasDistinctKeys l'
    go c' l' (yes _) e = subst HasDistinctKeys (cc) k
    go c' l' (no _) e = d.inner c' l' e

AreDistinct-delete : (m : Connections) (c : String) → AreDistinct m → AreDistinct (delete m c)
AreDistinct-delete m c d = record {
  outer = delete-HasDistinctKeys m c d.outer;
  inner = λ c' l' e. go c' l' (String-discrete c c') (sym (get-delete m c c' d.outer) ∙ e);
}
  where
    go :
        (c' : String) (l' : OrderedMap RequestId SubscriptionRecord) (x : Dec (c ≡ c'))
        → ite x none (get m c') ≡ some l'
        → HasDistinctKeys l'
    go c' l' (yes _) e = cc
    go c' l' (no _) e = d.inner c' l' e

-- What a removal leaves of a hub: nothing else changes.
pub record Removes (entry : SubscriptionEntry) (hub v : SubscriptionHub) : Type 0 where
  pub found_is :
      (c : String) (s : RequestId)
      → find_at v.connections c s
        ≡ at_key entry.connection_id entry.subscription_id c s none (find_at hub.connections c s)
  pub distinct : AreDistinct v.connections
  pub timers_is : v.timers ≡ clear_timer (find hub.connections entry) hub.timers
  pub rest_is : v ≡ record hub { connections = v.connections; timers = v.timers }

pub remove_entry-Removes :
    (entry : SubscriptionEntry) (hub : SubscriptionHub)
    → AreDistinct hub.connections
    → Removes entry hub (remove_entry entry hub)
unfolding remove_entry remove_found find find_at find_in clear_timer
remove_entry-Removes entry hub d = go (get hub.connections entry.connection_id) refl
  where
    c : String
    c = entry.connection_id

    s : RequestId
    s = entry.subscription_id

    absent :
        (c' : String) (s' : RequestId)
        → get hub.connections c ≡ none
        → find_at hub.connections c' s' ≡ at_key c s c' s' none (find_at hub.connections c' s')
    absent c' s' h = at (String-discrete c c') (RequestId-discrete s s')
      where
        at :
            (x : Dec (c ≡ c')) (y : Dec (s ≡ s'))
            → find_at hub.connections c' s'
              ≡ ite x (ite y none (find_at hub.connections c' s')) (find_at hub.connections c' s')
        at (yes e) (yes f) = ap (λ o. find_in o s') (ap (get hub.connections) (sym e) ∙ h)
        at (yes e) (no f) = refl
        at (no e) y = refl

    kept :
        (t l : OrderedMap RequestId SubscriptionRecord)
        → delete l s ≡ t
        → HasDistinctKeys l
        → AreDistinct (put_back c t hub.connections)
    kept [] l q k = AreDistinct-delete hub.connections c d
    kept (r ∷ t) l q k =
        AreDistinct-set hub.connections c (r ∷ t) d
          (subst HasDistinctKeys q (delete-HasDistinctKeys l s k))

    go :
        (o : Option (OrderedMap RequestId SubscriptionRecord))
        → get hub.connections c ≡ o
        → Removes entry hub (remove_found o entry hub)
    go none h = record {
      found_is = λ c' s'. absent c' s' h;
      distinct = d;
      timers_is = ap (λ o. clear_timer (find_in o s) hub.timers) (sym h);
      rest_is = refl;
    }
    go (some l) h = record {
      found_is = λ c' s'. find_at-put_back hub.connections c c' s s' l d.outer (d.inner c l h) h;
      distinct = kept (delete l s) l refl (d.inner c l h);
      timers_is = ap (λ o. clear_timer (find_in o s) hub.timers) (sym h);
      rest_is = refl;
    }
