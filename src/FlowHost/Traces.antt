-- ===== src/FlowHost/Traces.antt =====
-- `createMemoryTraceStore` of packages/flow-host/src/trace-store.ts. A span's key is its trace and its
-- id, for the JSON text of the two.
pub mod Reading
pub mod Keys
pub mod Latest
use mokei.Common.{
  ℕ, suc, String, List, [], ◌∷◌, ◌++◌, Bool, false, ◌||◌, ◌&&◌, not, if◌then◌else◌, string_key,
  ◌===◌, ltb,
}
use mokei.Common.Json.{Json}

pub record StoredSpan : Type 0 where
  pub trace_id : String
  pub span_id : String
  pub start_time : ℕ
  pub end_time : ℕ
  pub details : Json

pub record StoredLog : Type 0 where
  pub trace_id : String
  pub timestamp : ℕ
  pub details : Json

pub record SpanRow : Type 0 where
  pub sequence : ℕ
  pub value : StoredSpan

pub record LogRow : Type 0 where
  pub sequence : ℕ
  pub value : StoredLog

pub record TraceStore : Type 0 where
  pub spans : List SpanRow
  pub logs : List LogRow
  pub sequence : ℕ

unfoldable pub new_store : TraceStore
new_store = record { spans = []; logs = []; sequence = 0 }

pub record Deleted : Type 0 where
  pub store : TraceStore
  pub spans : ℕ
  pub logs : ℕ

unfoldable pub same_key : StoredSpan → StoredSpan → Bool
same_key a b = a.trace_id === b.trace_id && a.span_id === b.span_id

unfoldable pub has_span : List SpanRow → StoredSpan → Bool
unfolding same_key
has_span [] span = false
has_span (row ∷ rows) span = same_key row.value span || has_span rows span

-- A span that is there keeps its place and its sequence number.
unfoldable pub replace_span : List SpanRow → StoredSpan → List SpanRow
unfolding same_key
replace_span [] span = []
replace_span (row ∷ rows) span =
    if same_key row.value span
    then record row { value = span } ∷ rows
    else row ∷ replace_span rows span

unfoldable pub add_spans : List StoredSpan → TraceStore → TraceStore
unfolding has_span replace_span
add_spans [] store = store
add_spans (span ∷ batch) store = add_spans batch (
    if has_span store.spans span
    then record store { spans = replace_span store.spans span }
    else record store {
      spans = store.spans ++ record { sequence = store.sequence; value = span } ∷ [];
      sequence = suc store.sequence;
    })

unfoldable pub add_logs : List StoredLog → TraceStore → TraceStore
add_logs [] store = store
add_logs (log ∷ batch) store = add_logs batch (record store {
  logs = store.logs ++ record { sequence = store.sequence; value = log } ∷ [];
  sequence = suc store.sequence;
})

unfoldable pub includes_id : List String → String → Bool
includes_id [] id = false
includes_id (a ∷ ids) id = a === id || includes_id ids id

-- The spans that a test does not select, and how many it does.
unfoldable pub remove_spans : (StoredSpan → Bool) → List SpanRow → List SpanRow × ℕ
remove_spans selects [] = ([], 0)
remove_spans selects (row ∷ rows) =
    let (kept, n) = remove_spans selects rows in
    if selects row.value then (kept, suc n) else (row ∷ kept, n)

unfoldable pub remove_logs : (StoredLog → Bool) → List LogRow → List LogRow × ℕ
remove_logs selects [] = ([], 0)
remove_logs selects (row ∷ rows) =
    let (kept, n) = remove_logs selects rows in
    if selects row.value then (kept, suc n) else (row ∷ kept, n)

unfoldable pub delete_where : (StoredSpan → Bool) → (StoredLog → Bool) → TraceStore → Deleted
unfolding remove_spans remove_logs
delete_where span_goes log_goes store =
    let (spans, span_count) = remove_spans span_goes store.spans in
    let (logs, log_count) = remove_logs log_goes store.logs in
    record {
      store = record store { spans = spans; logs = logs };
      spans = span_count;
      logs = log_count;
    }

unfoldable pub delete_traces : List String → TraceStore → Deleted
unfolding delete_where includes_id
delete_traces ids store =
    delete_where (λ span. includes_id ids span.trace_id) (λ log. includes_id ids log.trace_id) store

unfoldable pub delete_before : ℕ → List String → TraceStore → Deleted
unfolding delete_where includes_id
delete_before time kept store =
    delete_where (λ span. ltb span.end_time time && not (includes_id kept span.trace_id))
      (λ log. ltb log.timestamp time && not (includes_id kept log.trace_id)) store
