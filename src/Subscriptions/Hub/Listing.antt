-- ===== src/Subscriptions/Hub/Listing.antt =====
-- The records of a hub in a row: which there are, and their timers.
use mokei.Common.{
  ℕ, ◌+◌, ◌≡◌, ap, String, some, List, [], ◌∷◌, ◌++◌, Bool, true, false, ◌||◌, ◌==◌, if◌then◌else◌,
  ite, arith, RequestId, string_key, request_key, nat_key, String-discrete, RequestId-discrete, inl,
  inr, Bool-cases,
}
use mokei.Common.OrderedMap.{
  OrderedMap, get, has, delete, HasDistinctKeys, has-delete, has-delete_le, delete-HasDistinctKeys,
}
use mathlib.Core.Option.{some_inj}
use mokei.Subscriptions.Hub.State.{
  SubscriptionRecord, Connections, records_of, all_records, find_in, find_at,
}
use mokei.Subscriptions.Hub.Handles.{clear_timers}

-- How often a registration stands in a list of records.
unfoldable pub occurrences : ℕ → List SubscriptionRecord → ℕ
occurrences n [] = 0
occurrences n (r ∷ records) = occurrences n records + (if r.number == n then 1 else 0)

pub occurrences-append :
    (n : ℕ) (a b : List SubscriptionRecord)
    → occurrences n (a ++ b) ≡ occurrences n a + occurrences n b
unfolding occurrences
occurrences-append n [] b = omega arith
occurrences-append n (r ∷ a) b = omega (arith, occurrences-append n a b)

unfoldable pub holds : List SubscriptionRecord → ℕ → Bool
holds [] n = false
holds (r ∷ records) n = r.number == n || holds records n

holds-append_right :
    (a b : List SubscriptionRecord) (n : ℕ) → holds b n ≡ true → holds (a ++ b) n ≡ true
unfolding holds
holds-append_right [] b n h = h
holds-append_right (r ∷ a) b n h = ground (arith, holds-append_right a b n h)

holds-append_left :
    (a b : List SubscriptionRecord) (n : ℕ) → holds a n ≡ true → holds (a ++ b) n ≡ true
unfolding holds
holds-append_left [] b n h = cc
holds-append_left (r ∷ a) b n h = ground (arith, holds-append_left a b n)

holds-records_of :
    (l : OrderedMap RequestId SubscriptionRecord) (s : RequestId) (r : SubscriptionRecord)
    → get l s ≡ some r
    → holds (records_of l) r.number ≡ true
unfolding holds records_of get
holds-records_of [] s r h = cc
holds-records_of ((s', q) ∷ l) s r h = go (holds-records_of l s r) (RequestId-discrete s' s) h
  where
    go :
        (get l s ≡ some r → holds (records_of l) r.number ≡ true)
        → (d : Dec (s' ≡ s)) → ite d (some q) (get l s) ≡ some r
        → holds (q ∷ records_of l) r.number ≡ true
    go ih (yes _) e =
        let same : q.number ≡ r.number = ap (λ x. x.number) (some_inj.0 e) in ground arith
    go ih (no _) e = ground (arith, ih e)

pub holds-all_records :
    (m : Connections) (c : String) (s : RequestId) (r : SubscriptionRecord)
    → find_at m c s ≡ some r
    → holds (all_records m) r.number ≡ true
unfolding all_records find_at find_in get
holds-all_records [] c s r h = cc
holds-all_records ((c', l) ∷ m) c s r h = go (holds-all_records m c s r) (String-discrete c' c) h
  where
    go :
        (find_in (get m c) s ≡ some r → holds (all_records m) r.number ≡ true)
        → (d : Dec (c' ≡ c)) → find_in (ite d (some l) (get m c)) s ≡ some r
        → holds (records_of l ++ all_records m) r.number ≡ true
    go ih (yes _) e =
        holds-append_left (records_of l) (all_records m) r.number (holds-records_of l s r e)
    go ih (no _) e = holds-append_right (records_of l) (all_records m) r.number (ih e)

has-clear_timers_le :
    (records : List SubscriptionRecord) (t : OrderedMap ℕ ℕ) (k : ℕ)
    → has t k ≡ false
    → has (clear_timers records t) k ≡ false
unfolding clear_timers
has-clear_timers_le [] t k h = h
has-clear_timers_le (r ∷ records) t k h =
    has-clear_timers_le records (delete t r.number) k (has-delete_le t r.number k h)

pub has-clear_timers :
    (records : List SubscriptionRecord) (t : OrderedMap ℕ ℕ) (k : ℕ)
    → HasDistinctKeys t
    → holds records k ≡ true
    → has (clear_timers records t) k ≡ false
unfolding clear_timers holds
has-clear_timers [] t k d h = cc
has-clear_timers (r ∷ records) t k d h = elim (Bool-cases (r.number == k)) [
  | inl same ↦
      has-clear_timers_le records (delete t r.number) k
        (ground (arith, has-delete t r.number k d, same))
  | inr other ↦
      has-clear_timers records (delete t r.number) k (delete-HasDistinctKeys t r.number d)
        (ground (arith, other, h))
]

pub has_of_has-clear_timers :
    (records : List SubscriptionRecord) (t : OrderedMap ℕ ℕ) (k : ℕ)
    → has (clear_timers records t) k ≡ true
    → has t k ≡ true
has_of_has-clear_timers records t k h = elim (Bool-cases (has t k)) [
  | inl e ↦ e
  | inr e ↦ cc (has-clear_timers_le records t k e, h)
]

pub clear_timers-HasDistinctKeys :
    (records : List SubscriptionRecord) (t : OrderedMap ℕ ℕ)
    → HasDistinctKeys t
    → HasDistinctKeys (clear_timers records t)
unfolding clear_timers
clear_timers-HasDistinctKeys [] t d = d
clear_timers-HasDistinctKeys (r ∷ records) t d =
    clear_timers-HasDistinctKeys records (delete t r.number) (delete-HasDistinctKeys t r.number d)
