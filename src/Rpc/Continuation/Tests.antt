-- ===== src/Rpc/Continuation/Tests.antt =====
-- Two continuations of one exchange and one of another.
use mokei.Common.{
  ℕ, ◌≡◌, refl, [], ◌∷◌, integer, String-discrete, RequestId-discrete, RequestId, ℕ_discrete,
}
use mokei.Common.Json.{pos, ℤ-discrete}
use mokei.Common.OrderedMap.{has}
use mokei.Rpc.Exchange.{plain}
use mokei.Rpc.Continuation.{ContinuationStore, ContinuationEntry, clear_for_exchange}
use mokei.Rpc.Continuation.Clearing.{without, rejections, clear_for_exchange_lem}

abbrev entry : RequestId → ℕ → ContinuationEntry
entry id promise = record { exchange = id; promise = promise }

abbrev three : ContinuationStore
three = record {
  entries =
      ("a", entry (integer (pos 1)) 0)
      ∷ ("b", entry (integer (pos 2)) 1)
      ∷ ("c", entry (integer (pos 1)) 2)
      ∷ [];
  settled = [];
}

clear_for_exchange_lem_example :
    ((clear_for_exchange three (integer (pos 1)) (plain "gone")).entries
      ≡ without (integer (pos 1)) three.entries)
    × ((clear_for_exchange three (integer (pos 1)) (plain "gone")).settled
        ≡ rejections (integer (pos 1)) (plain "gone") three.entries [])
unfolding has String-discrete
clear_for_exchange_lem_example =
    clear_for_exchange_lem three (integer (pos 1)) (plain "gone") (refl, (refl, (refl, tt)))

without_example : without (integer (pos 1)) three.entries ≡ ("b", entry (integer (pos 2)) 1) ∷ []
unfolding without RequestId-discrete ℤ-discrete ℕ_discrete
without_example = refl
