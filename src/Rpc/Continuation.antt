-- ===== src/Rpc/Continuation.antt =====
-- packages/context-rpc/src/continuation.ts. An entry's `resolve` and `reject` settle the promise of
-- the number that it holds.
pub mod Clearing
mod Tests
use mokei.Common.{
  ℕ, suc, String, ◌≡◌, refl, ap, Option, none, some, List, [], ◌∷◌, Bool, true, false, RequestId,
  request_key, string_key, ◌===◌, if◌then◌else◌, RequestId-discrete, arith, ite, ◌+◌, ℕ_discrete,
}
use mokei.Common.Json.{Json}
use mokei.Common.OrderedMap.{OrderedMap, get, has, set, delete, HasDistinctKeys}
use mokei.Rpc.Exchange.{Failure, Verdict, ok, failed}

pub record ContinuationEntry : Type 0 where
  pub exchange : RequestId
  pub promise : ℕ

pub record ContinuationStore : Type 0 where
  pub entries : OrderedMap String ContinuationEntry
  -- Promises settled, the last one first.
  pub settled : List (ℕ × Verdict)

unfoldable pub empty : ContinuationStore
empty = record { entries = []; settled = [] }

unfoldable pub register : ContinuationStore → String → ContinuationEntry → ContinuationStore
register s token entry = record s { entries = set s.entries token entry }

-- Deletes the token, then settles the entry.
settle_entry : ContinuationStore → String → ContinuationEntry → Verdict → ContinuationStore
settle_entry s token entry verdict = record s {
  entries = delete s.entries token;
  settled = (entry.promise, verdict) ∷ s.settled;
}

route_as : ContinuationStore → String → Option ContinuationEntry → Verdict → ContinuationStore
unfolding settle_entry
route_as s token none verdict = s
route_as s token (some entry) verdict = settle_entry s token entry verdict

unfoldable pub route : ContinuationStore → String → Verdict → ContinuationStore
unfolding route_as
route s token verdict = route_as s token (get s.entries token) verdict

-- The loop over the entries, which deletes as it goes.
clear_each :
    OrderedMap String ContinuationEntry
    → RequestId
    → Failure
    → ContinuationStore
    → ContinuationStore
unfolding settle_entry
clear_each [] id reason s = s
clear_each ((token, entry) ∷ rest) id reason s =
    clear_each rest id reason
      (if entry.exchange === id then settle_entry s token entry (failed reason) else s)

unfoldable pub clear_for_exchange : ContinuationStore → RequestId → Failure → ContinuationStore
unfolding clear_each
clear_for_exchange s id reason = clear_each s.entries id reason s

reject_each :
    OrderedMap String ContinuationEntry → Failure → List (ℕ × Verdict) → List (ℕ × Verdict)
reject_each [] reason settled = settled
reject_each ((token, entry) ∷ rest) reason settled =
    reject_each rest reason ((entry.promise, failed reason) ∷ settled)

unfoldable pub clear_all : ContinuationStore → Failure → ContinuationStore
unfolding reject_each
clear_all s reason = record { entries = []; settled = reject_each s.entries reason s.settled }
