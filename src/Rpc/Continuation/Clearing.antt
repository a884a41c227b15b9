-- ===== src/Rpc/Continuation/Clearing.antt =====
-- What settling an exchange does to the continuations that wait in it.
use mathlib.Core.List.{append_assoc}
use mokei.Common.{
  ℕ, String, ◌≡◌, refl, sym, ap, subst, ◌∙◌, List, [], ◌∷◌, ◌++◌, false, RequestId, string_key,
  request_key, ◌===◌, if◌then◌else◌, Bool-cases, inl, inr,
}
use mokei.Common.OrderedMap.{
  OrderedMap, has, delete, HasDistinctKeys, delete-append, has-append_left, delete-HasDistinctKeys,
}
use mokei.Rpc.Exchange.{Failure, Verdict, failed}
use mokei.Rpc.Continuation.{
  ContinuationEntry, ContinuationStore, clear_for_exchange, clear_each, settle_entry,
}

-- The entries of other exchanges, in their order.
unfoldable pub without :
    RequestId → OrderedMap String ContinuationEntry → OrderedMap String ContinuationEntry
without id [] = []
without id ((token, entry) ∷ rest) =
    let kept = without id rest in if entry.exchange === id then kept else (token, entry) ∷ kept

-- The promises of the exchange's entries, each rejected with the reason, in front of `settled`.
pub rejections :
    RequestId
    → Failure
    → OrderedMap String ContinuationEntry
    → List (ℕ × Verdict)
    → List (ℕ × Verdict)
rejections id reason [] settled = settled
rejections id reason ((token, entry) ∷ rest) settled =
    rejections id reason rest
      (if entry.exchange === id then (entry.promise, failed reason) ∷ settled else settled)

clear_each_lem :
    (id : RequestId) (reason : Failure) (kept rest : OrderedMap String ContinuationEntry)
    (s : ContinuationStore)
    → s.entries ≡ kept ++ rest
    → HasDistinctKeys s.entries
    → (clear_each rest id reason s).entries ≡ kept ++ without id rest
unfolding clear_each without
clear_each_lem id reason kept [] s e d = e
clear_each_lem id reason kept ((token, entry) ∷ rest) s e d =
    elim (Bool-cases (entry.exchange === id)) [
      | inl same ↦
          rw (same, clear_each)
            (clear_each_lem id reason kept rest (settle_entry s token entry (failed reason))
              (ap (λ m. delete m token) e ∙ delete-append kept rest token entry fresh)
              (delete-HasDistinctKeys s.entries token d))
      | inr other ↦
          let regroup = append_assoc kept ((token, entry) ∷ []) in
          rw (other, clear_each)
            (clear_each_lem id reason (kept ++ (token, entry) ∷ []) rest s (e ∙ sym (regroup rest))
                d
              ∙ regroup (without id rest))
    ]
  where
    fresh : has kept token ≡ false
    fresh = has-append_left kept rest token entry (subst HasDistinctKeys e d)

rejections_lem :
    (id : RequestId) (reason : Failure) (rest : OrderedMap String ContinuationEntry)
    (s : ContinuationStore)
    → (clear_each rest id reason s).settled ≡ rejections id reason rest s.settled
unfolding clear_each rejections
rejections_lem id reason [] s = refl
rejections_lem id reason ((token, entry) ∷ rest) s = elim (Bool-cases (entry.exchange === id)) [
  | inl same ↦
      rw (same, clear_each)
        (rejections_lem id reason rest (settle_entry s token entry (failed reason)))
  | inr other ↦ rw (other, clear_each) (rejections_lem id reason rest s)
]

-- `clearForExchange` takes out exactly the entries of the exchange and leaves the others in their
-- order, and it rejects the promise of each entry that it takes out, once, with the reason.
pub clear_for_exchange_lem :
    (s : ContinuationStore) (id : RequestId) (reason : Failure)
    → HasDistinctKeys s.entries
    → ((clear_for_exchange s id reason).entries ≡ without id s.entries)
      × ((clear_for_exchange s id reason).settled ≡ rejections id reason s.entries s.settled)
unfolding clear_for_exchange
clear_for_exchange_lem s id reason d =
    (clear_each_lem id reason [] s.entries s refl d, rejections_lem id reason s.entries s)
