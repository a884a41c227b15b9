-- ===== src/FlowHost/Traces/Reading.antt =====
-- `getTrace` of packages/flow-host/src/trace-store.ts: the spans and the logs of a trace in order.
use mokei.Common.{
  ℕ, ◌+◌, ◌<◌, ◌≤◌, ◌⊎◌, ◌≡◌, refl, ap, ◌∙◌, String, List, [], ◌∷◌, Bool, true, false, ◌||◌, ◌&&◌,
  if◌then◌else◌, string_key, ◌===◌, ltb, ◌==◌, arith, map,
}
use mokei.FlowHost.Traces.{StoredSpan, StoredLog, SpanRow, LogRow, TraceStore}

module _ {R : Type 0} (time sequence : R → ℕ) where
  -- The comparison is below 0: by time, and at the same time by sequence.
  unfoldable pub comes_before : R → R → Bool
  comes_before a b = ltb (time a) (time b) || time a == time b && ltb (sequence a) (sequence b)

  -- `sort`, which is stable.
  unfoldable pub insert_row : R → List R → List R
  unfolding comes_before
  insert_row r [] = r ∷ []
  insert_row r (s ∷ rest) = if comes_before s r then s ∷ insert_row r rest else r ∷ s ∷ rest

  unfoldable pub sorted_rows : List R → List R
  unfolding insert_row
  sorted_rows [] = []
  sorted_rows (r ∷ rest) = insert_row r (sorted_rows rest)

  -- Times do not fall, and at the same time sequences do not fall.
  abbrev pub Follows : R → R → Type 0
  Follows r s = (time r < time s) ⊎ ((time r ≡ time s) × (sequence r ≤ sequence s))

  abbrev pub IsInOrder : List R → Type 0
  IsInOrder [] = Unit {0}
  IsInOrder (r ∷ []) = Unit {0}
  IsInOrder (r ∷ s ∷ rest) = Follows r s × IsInOrder (s ∷ rest)

  Follows-before : (a b : R) → comes_before a b ≡ true → Follows a b
  unfolding comes_before
  Follows-before a b h = ground arith

  Follows-not_before : (a b : R) → comes_before a b ≡ false → Follows b a
  unfolding comes_before
  Follows-not_before a b h = ground arith

  insert_row-IsInOrder : (r : R) (rows : List R) → IsInOrder rows → IsInOrder (insert_row r rows)
  unfolding insert_row
  insert_row-IsInOrder r [] h = tt
  insert_row-IsInOrder r (s ∷ []) h = go (comes_before s r) refl
    where
      go : (b : Bool) → comes_before s r ≡ b → IsInOrder (if b then s ∷ r ∷ [] else r ∷ s ∷ [])
      go true q = (Follows-before s r q, tt)
      go false q = (Follows-not_before s r q, tt)
  insert_row-IsInOrder r (s ∷ t ∷ rest) h =
      go (comes_before s r) (comes_before t r) refl refl (insert_row-IsInOrder r (t ∷ rest) h.1)
    where
      go :
          (b c : Bool)
          → comes_before s r ≡ b
          → comes_before t r ≡ c
          → IsInOrder (if c then t ∷ insert_row r rest else r ∷ t ∷ rest)
          → IsInOrder (
              if b
              then s ∷ (if c then t ∷ insert_row r rest else r ∷ t ∷ rest)
              else r ∷ s ∷ t ∷ rest)
      go true true q p k = (h.0, k)
      go true false q p k = (Follows-before s r q, k)
      go false c q p k = (Follows-not_before s r q, h)

  sorted_rows-IsInOrder : (rows : List R) → IsInOrder (sorted_rows rows)
  unfolding sorted_rows
  sorted_rows-IsInOrder [] = tt
  sorted_rows-IsInOrder (r ∷ rest) =
      insert_row-IsInOrder r (sorted_rows rest) (sorted_rows-IsInOrder rest)

-- How many elements of a list satisfy a test.
unfoldable pub count {ℓ} : {A : Type ℓ} → (A → Bool) → List A → ℕ
count p [] = 0
count p (x ∷ xs) = count p xs + (if p x then 1 else 0)

unfoldable pub select {ℓ} : {A : Type ℓ} → (A → Bool) → List A → List A
select p [] = []
select p (x ∷ xs) = if p x then x ∷ select p xs else select p xs

count-select {ℓ} :
    {A : Type ℓ} (p q : A → Bool) (xs : List A) → count p (select q xs) ≡ count (λ x. q x && p x) xs
unfolding count select
count-select p q [] = refl
count-select p q (x ∷ xs) = ground (arith, count-select p q xs)

module _ {R : Type 0} (time sequence : R → ℕ) (p : R → Bool) where
  count-insert_row :
      (r : R) (rows : List R) → count p (insert_row time sequence r rows) ≡ count p (r ∷ rows)
  unfolding count insert_row
  count-insert_row r [] = refl
  count-insert_row r (s ∷ rest) = ground (arith, count-insert_row r rest)

  count-sorted_rows : (rows : List R) → count p (sorted_rows time sequence rows) ≡ count p rows
  unfolding sorted_rows count
  count-sorted_rows [] = refl
  count-sorted_rows (r ∷ rest) =
      count-insert_row r (sorted_rows time sequence rest)
      ∙ ap (λ n. n + (if p r then 1 else 0)) (count-sorted_rows rest)

abbrev pub span_rows : String → TraceStore → List SpanRow
span_rows id store =
    sorted_rows (λ r. r.value.start_time) (λ r. r.sequence)
      (select (λ r. r.value.trace_id === id) store.spans)

abbrev pub log_rows : String → TraceStore → List LogRow
log_rows id store =
    sorted_rows (λ r. r.value.timestamp) (λ r. r.sequence)
      (select (λ r. r.value.trace_id === id) store.logs)

unfoldable pub get_trace : String → TraceStore → List StoredSpan × List StoredLog
get_trace id store =
    (map (λ r. r.value) (span_rows id store), map (λ r. r.value) (log_rows id store))

-- The rows that a reading of a trace gives the values of: in order, and each as often as among the
-- rows of the store that are of the trace.
pub record IsReading {R V : Type 0} (value : R → V) (time sequence : R → ℕ) (of_trace : R → Bool)
    (rows : List R) (result : List V) : Type 0 where
  pub read : List R
  pub values : result ≡ map value read
  pub in_order : IsInOrder time sequence read
  pub same_rows : (p : R → Bool) → count p read ≡ count (λ r. of_trace r && p r) rows

-- `getTrace` gives exactly the spans of the trace in the order of their start, those of the same start
-- in the order of their sequence, and exactly its logs in the order of their time stamps, those of the
-- same time in the order of their sequence.
pub get_trace-IsReading :
    (id : String) (store : TraceStore)
    → IsReading
        (λ r. r.value)
        (λ r. r.value.start_time)
        (λ r. r.sequence)
        (λ r. r.value.trace_id === id)
        store.spans
        (get_trace id store).0
      × IsReading
          (λ r. r.value)
          (λ r. r.value.timestamp)
          (λ r. r.sequence)
          (λ r. r.value.trace_id === id)
          store.logs
          (get_trace id store).1
unfolding get_trace
get_trace-IsReading id store = (
  record {
    read = span_rows id store;
    values = refl;
    in_order = sorted_rows-IsInOrder _ _ _;
    same_rows = λ p. count-sorted_rows _ _ p _ ∙ count-select p _ store.spans;
  },
  record {
    read = log_rows id store;
    values = refl;
    in_order = sorted_rows-IsInOrder _ _ _;
    same_rows = λ p. count-sorted_rows _ _ p _ ∙ count-select p _ store.logs;
  },
)
