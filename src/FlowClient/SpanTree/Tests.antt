-- ===== src/FlowClient/SpanTree/Tests.antt =====
-- A trace of a root with a child, and of two spans that are each other's parent.
use mokei.Common.{
  ℕ, ◌≡◌, refl, String, String-discrete, Option, none, some, List, [], ◌∷◌, if◌then◌else◌, ltb,
  length, string_key,
}
use mokei.Common.OrderedMap.{get, set}
use mokei.FlowClient.SpanTree.{
  StoredSpan, Forest, nil, tree, numbered, sorted, insert, group_each, group_under, parent_in,
  has_id, siblings_of, visit_each, visit_roots, is_seen, append_forest, unreached, finish,
  nest_spans,
}
use mokei.FlowClient.SpanTree.Counting.{planted}
use mokei.FlowClient.SpanTree.Fitting.{IsNested}
use mokei.FlowClient.SpanTree.Nested.{nest_spans_lem}

evaluation : Unit {0}
unfolding numbered sorted insert group_each group_under parent_in has_id siblings_of visit_each
    visit_roots is_seen append_forest unreached finish nest_spans get set String-discrete
evaluation = tt

abbrev span : String → Option String → ℕ → StoredSpan
span id parent start = record { span_id = id; parent_span_id = parent; start_time = start }

abbrev trace : List StoredSpan
trace =
    span "child" (some "root") 2
    ∷ span "root" none 1
    ∷ span "a" (some "b") 3
    ∷ span "b" (some "a") 4
    ∷ []

nested_trace :
    nest_spans trace
    ≡ some (
        tree
          (record { number = 1; span = span "root" none 1 })
          (tree (record { number = 0; span = span "child" (some "root") 2 }) nil nil)
          (tree
            (record { number = 2; span = span "a" (some "b") 3 })
            nil
            (tree (record { number = 3; span = span "b" (some "a") 4 }) nil nil)))
unfolding evaluation
nested_trace = refl

nest_spans_lem_example :
    (forest : Forest) × (nest_spans trace ≡ some forest)
    × ((a : ℕ) → planted a forest ≡ (if ltb a (length trace) then 1 else 0))
    × IsNested trace none forest
nest_spans_lem_example = nest_spans_lem trace
