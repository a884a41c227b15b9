-- ===== src/Subscriptions/Hub/Counting.antt =====
-- How often a registration stands among all records of a hub: once under its key, or not at all.
use mokei.Common.{
  ℕ, ◌+◌, ◌≡◌, refl, sym, ap, ◌∙◌, ◌⊎◌, String, Option, none, some, List, [], ◌∷◌, ◌++◌, true,
  false, ◌==◌, if◌then◌else◌, ite, arith, inl, inr, Bool-cases, is_some, All, RequestId, string_key,
  request_key, String-discrete, RequestId-discrete,
}
use mokei.Common.OrderedMap.{OrderedMap, get, has, HasDistinctKeys, has-get}
use mokei.Subscriptions.Hub.State.{
  SubscriptionRecord, Connections, records_of, all_records, find_in, find_at,
}
use mokei.Subscriptions.Hub.FanOut.{has_number}
use mokei.Subscriptions.Hub.Listing.{occurrences, occurrences-append}
use mokei.Subscriptions.Hub.Lookup.{AreDistinct}

get_missing :
    (l : OrderedMap RequestId SubscriptionRecord) (s : RequestId) → has l s ≡ false → get l s ≡ none
get_missing l s h = go (get l s) refl
  where
    go : (o : Option SubscriptionRecord) → get l s ≡ o → get l s ≡ none
    go none e = e
    go (some r) e = cc (has-get l s, ap is_some e, h)

get_tail :
    (s' s : RequestId) (q r : SubscriptionRecord) (l : OrderedMap RequestId SubscriptionRecord)
    → has l s' ≡ false
    → get l s ≡ some r
    → get ((s', q) ∷ l) s ≡ some r
unfolding get
get_tail s' s q r l h g =
    elim (RequestId-discrete s' s) as (λ d. ite d (some q) (get l s) ≡ some r) [
      | yes e ↦ cc (has-get l s, ap is_some g, h, ap (has l) e)
      | no e ↦ g
    ]

own_id :
    (s : RequestId) (q : SubscriptionRecord) (l : OrderedMap RequestId SubscriptionRecord)
    → get ((s, q) ∷ l) s ≡ some q
unfolding get
own_id s q l = elim (RequestId-discrete s s) as (λ d. ite d (some q) (get l s) ≡ some q) [
  | yes e ↦ refl
  | no f ↦ absurd (f refl)
]

module _ (n : ℕ) (s : RequestId) where
  -- A registration stands in a connection under one id at most.
  occurrences-records_of :
      (l : OrderedMap RequestId SubscriptionRecord)
      → HasDistinctKeys l
      → ((s' : RequestId) (r : SubscriptionRecord) → get l s' ≡ some r → r.number ≡ n → s' ≡ s)
      → occurrences n (records_of l) ≡ (if has_number (get l s) n then 1 else 0)
  unfolding occurrences records_of has_number get
  occurrences-records_of [] d h = refl
  occurrences-records_of ((s', q) ∷ l) d h =
      let ih = occurrences-records_of l d.1 (λ t r g. h t r (get_tail s' t q r l d.0 g)) in
      go ih (RequestId-discrete s' s) (Bool-cases (q.number == n))
    where
      go :
          occurrences n (records_of l) ≡ (if has_number (get l s) n then 1 else 0)
          → (d : Dec (s' ≡ s)) → ((q.number == n) ≡ true) ⊎ ((q.number == n) ≡ false)
          → occurrences n (records_of l) + (if q.number == n then 1 else 0)
            ≡ (if has_number (ite d (some q) (get l s)) n then 1 else 0)
      go ih (yes e) c =
          let missing : get l s ≡ none = get_missing l s (ap (has l) (sym e) ∙ d.0) in
          let nothing = ih ∙ ap (λ o. if has_number o n then 1 else 0) missing in
          ground (arith, nothing)
      go ih (no e) (inl c) =
          let number_is : q.number ≡ n = ground arith in
          absurd (e (h s' q (own_id s' q l) number_is))
      go ih (no e) (inr c) = ground (arith, ih, c)

get_tail_connection :
    (c' c : String) (l k : OrderedMap RequestId SubscriptionRecord) (m : Connections)
    → has m c' ≡ false
    → get m c ≡ some k
    → get ((c', l) ∷ m) c ≡ some k
unfolding get
get_tail_connection c' c l k m h g =
    elim (String-discrete c' c) as (λ d. ite d (some l) (get m c) ≡ some k) [
      | yes e ↦ cc (has-get m c, ap is_some g, h, ap (has m) e)
      | no e ↦ g
    ]

find_tail :
    (c' c : String) (s : RequestId) (l : OrderedMap RequestId SubscriptionRecord) (m : Connections)
    (r : SubscriptionRecord)
    → has m c' ≡ false
    → find_at m c s ≡ some r
    → find_at ((c', l) ∷ m) c s ≡ some r
unfolding find_at find_in
find_tail c' c s l m r h g = go (get m c) refl
  where
    go :
        (o : Option (OrderedMap RequestId SubscriptionRecord))
        → get m c ≡ o
        → find_in (get ((c', l) ∷ m) c) s ≡ some r
    go none e = cc (g, ap (λ o. find_in o s) e)
    go (some k) e = ap (λ o. find_in o s) (get_tail_connection c' c l k m h e ∙ sym e) ∙ g

-- A connection is found first under its own id.
own_connection :
    (c : String) (l : OrderedMap RequestId SubscriptionRecord) (m : Connections)
    → get ((c, l) ∷ m) c ≡ some l
unfolding get
own_connection c l m = elim (String-discrete c c) as (λ d. ite d (some l) (get m c) ≡ some l) [
  | yes e ↦ refl
  | no f ↦ absurd (f refl)
]

rest-AreDistinct :
    (c : String) (l : OrderedMap RequestId SubscriptionRecord) (m : Connections)
    → AreDistinct ((c, l) ∷ m)
    → AreDistinct m
rest-AreDistinct c l m d = record {
  outer = d.outer.1;
  inner = λ a k g. d.inner a k (get_tail_connection c a l k m d.outer.0 g);
}

own_record :
    (c : String) (l : OrderedMap RequestId SubscriptionRecord) (m : Connections) (t : RequestId)
    (r : SubscriptionRecord)
    → get l t ≡ some r
    → find_at ((c, l) ∷ m) c t ≡ some r
unfolding find_at find_in
own_record c l m t r g = ap (λ o. find_in o t) (own_connection c l m) ∙ g

module _ (P : SubscriptionRecord → Type 0) where
  All-append : (a b : List SubscriptionRecord) → All P a → All P b → All P (a ++ b)
  All-append [] b h k = k
  All-append (r ∷ a) b h k = (h.0, All-append a b h.1 k)

  records_of-All :
      (l : OrderedMap RequestId SubscriptionRecord)
      → HasDistinctKeys l
      → ((s : RequestId) (r : SubscriptionRecord) → get l s ≡ some r → P r)
      → All P (records_of l)
  unfolding records_of
  records_of-All [] d h = tt
  records_of-All ((s, q) ∷ l) d h =
      (h s q (own_id s q l), records_of-All l d.1 (λ t r g. h t r (get_tail s t q r l d.0 g)))

  pub all_records-All :
      (m : Connections)
      → AreDistinct m
      → ((c : String) (s : RequestId) (r : SubscriptionRecord) → find_at m c s ≡ some r → P r)
      → All P (all_records m)
  unfolding all_records
  all_records-All [] d h = tt
  all_records-All ((c, l) ∷ m) d h =
      All-append (records_of l) (all_records m)
        (records_of-All l (d.inner c l (own_connection c l m))
          (λ s r g. h c s r (own_record c l m s r g)))
        (all_records-All m (rest-AreDistinct c l m d)
          (λ a s r g. h a s r (find_tail c a s l m r d.outer.0 g)))

module _ (n : ℕ) (c : String) (s : RequestId) where
  pub occurrences-all_records :
      (m : Connections)
      → AreDistinct m
      → ((c' : String) (s' : RequestId) (r : SubscriptionRecord)
          → find_at m c' s' ≡ some r
          → r.number ≡ n
          → (c' ≡ c) × (s' ≡ s))
      → occurrences n (all_records m) ≡ (if has_number (find_at m c s) n then 1 else 0)
  unfolding occurrences all_records has_number find_at find_in get
  occurrences-all_records [] d h = refl
  occurrences-all_records ((c', l) ∷ m) d h =
      let ih =
        occurrences-all_records m (rest-AreDistinct c' l m d)
          (λ a b r g. h a b r (find_tail c' a b l m r d.outer.0 g)) in
      let inside =
        occurrences-records_of n s l (d.inner c' l (own_connection c' l m))
          (λ t r g e. (h c' t r (own_record c' l m t r g) e).1) in
      occurrences-append n (records_of l) (all_records m) ∙ go ih inside (String-discrete c' c)
    where
      -- In another connection nothing has the number.
      elsewhere :
          (c' ≡ c → ⊥)
          → occurrences n (records_of l) ≡ (if has_number (get l s) n then 1 else 0)
          → (o : Option SubscriptionRecord) → get l s ≡ o
          → occurrences n (records_of l) ≡ 0
      elsewhere f i none g = i ∙ ap (λ o. if has_number o n then 1 else 0) g
      elsewhere f i (some r) g = elim (Bool-cases (r.number == n)) [
        | inl e ↦
            let number_is : r.number ≡ n = ground arith in
            absurd (f (h c' s r (own_record c' l m s r g) number_is).0)
        | inr e ↦ i ∙ ap (λ o. if has_number o n then 1 else 0) g ∙ ap (λ b. if b then 1 else 0) e
      ]

      missing : (c' ≡ c) → get m c ≡ none
      missing e = gone (get m c) refl
        where
          gone :
              (o : Option (OrderedMap RequestId SubscriptionRecord)) → get m c ≡ o → get m c ≡ none
          gone none g = g
          gone (some k) g = cc (has-get m c, ap is_some g, ap (has m) e, d.outer.0)

      go :
          occurrences n (all_records m) ≡ (if has_number (find_in (get m c) s) n then 1 else 0)
          → occurrences n (records_of l) ≡ (if has_number (get l s) n then 1 else 0)
          → (x : Dec (c' ≡ c))
          → occurrences n (records_of l) + occurrences n (all_records m)
            ≡ (if has_number (find_in (ite x (some l) (get m c)) s) n then 1 else 0)
      go ih i (yes e) =
          let nothing = ih ∙ ap (λ o. if has_number (find_in o s) n then 1 else 0) (missing e) in
          ground (arith, nothing, i)
      go ih i (no e) = ground (arith, ih, elsewhere e i (get l s) refl)
