-- ===== src/FlowHost/Traces/Latest.antt =====
-- A span that is added again takes the place of the one with its key.
use mokei.Common.{
  ℕ, suc, ◌+◌, ◌≡◌, refl, sym, ap, ◌∙◌, String, List, [], ◌∷◌, ◌++◌, Bool, true, false, ◌||◌, ◌&&◌,
  not, if◌then◌else◌, string_key, ◌===◌, arith, map,
}
use mokei.FlowHost.Traces.{
  StoredSpan, SpanRow, TraceStore, new_store, same_key, has_span, replace_span, add_spans,
}
use mokei.FlowHost.Traces.Keys.{
  same_key-same, has_span-same, AreApart, AreApart-replace_span, same_key_sym, AreApart-snoc,
}
use mokei.FlowHost.Traces.Reading.{count, get_trace, IsInOrder, get_trace-IsReading}

-- Whether some span of a list has the trace and the id of another.
unfoldable pub has_key : List StoredSpan → StoredSpan → Bool
has_key [] s = false
has_key (x ∷ xs) s = (x.trace_id === s.trace_id && x.span_id === s.span_id) || has_key xs s

-- The spans of a list that no later one has the key of.
unfoldable pub latest_spans : List StoredSpan → List StoredSpan
unfolding has_key
latest_spans [] = []
latest_spans (x ∷ xs) = if has_key xs x then latest_spans xs else x ∷ latest_spans xs

module _ (p : StoredSpan → Bool) where
  -- The rows that the spans of a list leave in place, as often as a test holds for them.
  kept : List StoredSpan → List SpanRow → ℕ
  kept xs rows = count (λ r. not (has_key xs r.value) && p r.value) rows

  kept-missing :
      (x : StoredSpan) (xs : List StoredSpan) (rows : List SpanRow)
      → has_span rows x ≡ false
      → kept (x ∷ xs) rows ≡ kept xs rows
  unfolding kept count has_key has_span same_key
  kept-missing x xs [] h = refl
  kept-missing x xs (r ∷ rows) h =
      let other : same_key x r.value ≡ false = same_key_sym x r.value ∙ ground (arith, h) in
      let rest = kept-missing x xs rows (ground (arith, h)) in
      ap (λ n. n + (if not (same_key x r.value || has_key xs r.value) && p r.value then 1 else 0))
        rest
      ∙ ap (λ b. kept xs rows + (if not (b || has_key xs r.value) && p r.value then 1 else 0)) other

  has_key-same :
      (xs : List StoredSpan) (a b : StoredSpan) → same_key a b ≡ true → has_key xs a ≡ has_key xs b
  unfolding has_key same_key
  has_key-same [] a b h = refl
  has_key-same (x ∷ xs) a b h =
      ap (λ c. c || has_key xs a) (same_key-same a b x h).1
      ∙ ap (λ c. same_key x b || c) (has_key-same xs a b h)

  -- What the last span of a list adds to the latest.
  added : StoredSpan → List StoredSpan → ℕ
  added x xs = if not (has_key xs x) && p x then 1 else 0

  count-latest_spans_spans :
      (x : StoredSpan) (xs : List StoredSpan)
      → count p (latest_spans (x ∷ xs)) ≡ count p (latest_spans xs) + added x xs
  unfolding count latest_spans added
  count-latest_spans_spans x xs = ground arith

  kept-replace_span :
      (x : StoredSpan) (xs : List StoredSpan) (rows : List SpanRow)
      → AreApart rows
      → has_span rows x ≡ true
      → kept xs (replace_span rows x) ≡ kept (x ∷ xs) rows + added x xs
  unfolding kept count has_key has_span replace_span added same_key
  kept-replace_span x xs [] d h = cc
  kept-replace_span x xs (r ∷ rows) d h =
      go (same_key r.value x) refl (kept-replace_span x xs rows d.1)
    where
      contribution : Bool → ℕ
      contribution b = if not (b || has_key xs r.value) && p r.value then 1 else 0

      go :
          (b : Bool)
          → same_key r.value x ≡ b
          → (has_span rows x ≡ true
              → kept xs (replace_span rows x) ≡ kept (x ∷ xs) rows + added x xs)
          → kept xs (if b then record r { value = x } ∷ rows else r ∷ replace_span rows x)
            ≡ kept (x ∷ xs) (r ∷ rows) + added x xs
      go true e ih =
          let gone : contribution (same_key x r.value) ≡ 0 =
            ap contribution (same_key_sym x r.value ∙ e) in
          let others = kept-missing x xs rows (sym (has_span-same rows r.value x e) ∙ d.0) in
          omega (arith, gone, others)
      go false e ih =
          let stays : contribution (same_key x r.value) ≡ contribution false =
            ap contribution (same_key_sym x r.value ∙ e) in
          let others = ih (ap (λ b. b || has_span rows x) (sym e) ∙ h) in
          omega (arith, stays, others)

  kept-snoc :
      (xs : List StoredSpan) (rows : List SpanRow) (r : SpanRow)
      → kept xs (rows ++ r ∷ []) ≡ kept xs rows + added r.value xs
  unfolding kept count added
  kept-snoc xs [] r = refl
  kept-snoc xs (q ∷ rows) r = omega (arith, kept-snoc xs rows r)

  kept-nothing : (rows : List SpanRow) → kept [] rows ≡ count (λ r. p r.value) rows
  unfolding kept count has_key
  kept-nothing [] = refl
  kept-nothing (r ∷ rows) = omega (arith, kept-nothing rows)

  ends : (n : ℕ) → n ≡ n + count p (latest_spans [])
  unfolding count latest_spans
  ends n = omega arith

  -- After an addition the rows hold what the batch leaves of them, and the latest of the batch.
  count-add_spans :
      (batch : List StoredSpan) (store : TraceStore)
      → AreApart store.spans
      → count (λ r. p r.value) (add_spans batch store).spans
        ≡ kept batch store.spans + count p (latest_spans batch)
  unfolding add_spans latest_spans
  count-add_spans [] store d = sym (kept-nothing store.spans) ∙ ends (kept [] store.spans)
  count-add_spans (x ∷ xs) store d = go (has_span store.spans x) refl (count-add_spans xs)
    where
      go :
          (b : Bool)
          → has_span store.spans x ≡ b
          → ((s : TraceStore)
              → AreApart s.spans
              → count (λ r. p r.value) (add_spans xs s).spans
                ≡ kept xs s.spans + count p (latest_spans xs))
          → count
              (λ r. p r.value)
              (add_spans xs (
                if b then record store { spans = replace_span store.spans x } else record store {
                  spans = store.spans ++ record { sequence = store.sequence; value = x } ∷ [];
                  sequence = suc store.sequence;
                })).spans
            ≡ kept (x ∷ xs) store.spans + count p (latest_spans (x ∷ xs))
      go true h ih =
          let e =
            ih (record store { spans = replace_span store.spans x })
              (AreApart-replace_span store.spans x d) in
          omega (arith, e, kept-replace_span x xs store.spans d h, count-latest_spans_spans x xs)
      go false h ih =
          let r : SpanRow = record { sequence = store.sequence; value = x } in
          let e =
            ih (record store { spans = store.spans ++ r ∷ []; sequence = suc store.sequence })
              (AreApart-snoc store.spans r h d) in
          omega (
            arith,
            e,
            kept-snoc xs store.spans r,
            kept-missing x xs store.spans h,
            count-latest_spans_spans x xs,
          )

count-map :
    (p : StoredSpan → Bool) (rows : List SpanRow)
    → count p (map (λ r. r.value) rows) ≡ count (λ r. p r.value) rows
unfolding count
count-map p [] = refl
count-map p (r ∷ rows) = omega (arith, count-map p rows)

from_new :
    (p : StoredSpan → Bool) (batch : List StoredSpan)
    → count (λ r. p r.value) (add_spans batch new_store).spans ≡ count p (latest_spans batch)
unfolding new_store kept count
from_new p batch = count-add_spans p batch new_store tt ∙ nothing
  where
    nothing : kept p batch [] + count p (latest_spans batch) ≡ count p (latest_spans batch)
    nothing = omega arith

-- After a batch of spans was added to a new store, `getTrace` gives of each span of the batch that is
-- of the trace the latest version, once, and no other span. They are the values of exactly the rows
-- that the store holds for the trace, in the order of their start, those of the same start in the
-- order of the rows' sequence.
pub get_trace-add_spans :
    (id : String) (batch : List StoredSpan)
    → let store = add_spans batch new_store in
      (read : List SpanRow) × ((get_trace id store).0 ≡ map (λ r. r.value) read)
      × IsInOrder (λ r. r.value.start_time) (λ r. r.sequence) read
      × ((q : SpanRow → Bool)
          → count q read ≡ count (λ r. r.value.trace_id === id && q r) store.spans)
      × ((p : StoredSpan → Bool)
          → count p (get_trace id store).0
            ≡ count (λ s. s.trace_id === id && p s) (latest_spans batch))
get_trace-add_spans id batch =
    let store = add_spans batch new_store in
    let r = (get_trace-IsReading id store).0 in
    (
      r.read,
      r.values,
      r.in_order,
      r.same_rows,
      λ p.
          ap (count p) r.values
          ∙ count-map p r.read
          ∙ r.same_rows (λ x. p x.value)
          ∙ from_new (λ s. s.trace_id === id && p s) batch,
    )
