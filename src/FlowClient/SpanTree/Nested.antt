-- ===== src/FlowClient/SpanTree/Nested.antt =====
-- The forest of `nestSpans` holds every span once, under its parent or at the top.
use mokei.Common.{
  ℕ, ◌+◌, ◌-◌, ◌≤◌, ◌≡◌, refl, ap, ◌∙◌, String, Option, none, some, List, [], ◌∷◌, if◌then◌else◌,
  ltb, length, get_elem?, All, arith, string_key,
}
use mokei.Common.OrderedMap.{get}
use mokei.FlowClient.SpanTree.{
  StoredSpan, Node, Forest, numbered, sorted, Grouped, siblings_of, group_each, is_seen, Visited,
  visit_roots, append_forest, unreached, finish, nest_spans,
}
use mokei.FlowClient.SpanTree.Counting.{
  occurrences, planted, occurrences-sorted, occurrences-numbered, group_each-Shares, is_seen-count,
  planted-append_forest, planted-unreached,
}
use mokei.FlowClient.SpanTree.Visiting.{unseen, Visits, visit_roots-Visits}
use mokei.FlowClient.SpanTree.Fitting.{
  Fits, IsNested, numbered-Fits, sorted-All, Groups, group_each-Groups, IsNestedVisit,
  append_forest-IsNested, unreached-IsNested, visit_roots-IsNested,
}

unseen-length : (nodes : List Node) → unseen nodes [] ≤ length nodes
unfolding is_seen
unseen-length [] = omega arith
unseen-length (n ∷ nodes) = omega (arith, unseen-length nodes)

-- The nodes of `nestSpans` in their order.
abbrev nodes_of : List StoredSpan → List Node
nodes_of spans = sorted (numbered 0 spans)

abbrev groups_of : List StoredSpan → Grouped
groups_of spans = group_each spans (nodes_of spans) (record { roots = []; children = [] })

abbrev children_of : List StoredSpan → String → List Node
children_of spans id = siblings_of (get (groups_of spans).children id)

occurrences-nodes_of :
    (spans : List StoredSpan) (a : ℕ)
    → occurrences a (nodes_of spans) ≡ (if ltb a (length spans) then 1 else 0)
occurrences-nodes_of spans a =
    occurrences-sorted a (numbered 0 spans) ∙ occurrences-numbered a 0 spans ∙ ground arith

no_share : (b : ℕ) (i : String) → 0 + occurrences b (siblings_of (get [] i)) ≤ 0
unfolding get siblings_of
no_share b i = omega arith

groups_of-shares :
    (spans : List StoredSpan) (a : ℕ) (id : String)
    → occurrences a (groups_of spans).roots + occurrences a (children_of spans id)
      ≤ occurrences a (nodes_of spans)
groups_of-shares spans a id =
    let s =
      group_each-Shares spans (nodes_of spans) (λ b. 0) (record { roots = []; children = [] })
        (record { shares = no_share }) in
    ground (arith, s.shares a id)

no_groups :
    (spans : List StoredSpan) (id : String) → All (Fits spans (some id)) (siblings_of (get [] id))
unfolding get siblings_of
no_groups spans id = tt

nodes_of-Fits : (spans : List StoredSpan) → All (Fits spans none) (nodes_of spans)
nodes_of-Fits spans =
    sorted-All (Fits spans none) (numbered 0 spans) (go (numbered 0 spans) (numbered-Fits 0 spans))
  where
    go :
        (nodes : List Node)
        → All (λ (x : Node). (0 ≤ x.number) × (get_elem? spans (x.number - 0) ≡ some x.span)) nodes
        → All (Fits spans none) nodes
    go [] h = tt
    go (x ∷ nodes) ((l, e), h) =
        let same : x.number ≡ x.number - 0 = omega arith in
        ((ap (get_elem? spans) same ∙ e, tt), go nodes h)

-- The forest of `nestSpans` always exists, each of the given spans stands in it exactly once and
-- nothing else does, and the children of a span are spans that name it as their parent; this also
-- holds where the parents form cycles.
pub nest_spans_lem :
    (spans : List StoredSpan)
    → (forest : Forest) × (nest_spans spans ≡ some forest)
      × ((a : ℕ) → planted a forest ≡ (if ltb a (length spans) then 1 else 0))
      × IsNested spans none forest
unfolding nest_spans finish IsNestedVisit
nest_spans_lem spans =
    finishes (visit_roots (children_of spans) (length nodes) (groups_of spans).roots [])
      (visit_roots-Visits (children_of spans) nodes
        (λ a id h. ground (arith, groups_of-shares spans a id, h)) (length nodes)
        (groups_of spans).roots [] (λ a h. ground (arith, groups_of-shares spans a "", h))
        (λ a. ground (arith, groups_of-shares spans a "", single a))
        (λ a h. (refl, λ id. ground (arith, groups_of-shares spans a id, single a, h)))
        (unseen-length nodes))
      (visit_roots-IsNested spans (children_of spans) fit.children_fit (length nodes)
        (groups_of spans).roots [] fit.roots_fit)
  where
    nodes : List Node
    nodes = nodes_of spans

    single : (a : ℕ) → occurrences a nodes ≤ 1
    single a = ground (arith, occurrences-nodes_of spans a)

    fit : Groups spans (groups_of spans)
    fit =
        group_each-Groups spans nodes (record { roots = []; children = [] }) (nodes_of-Fits spans)
          (record { roots_fit = tt; children_fit = no_groups spans })

    finishes :
        (o : Option Visited)
        → Visits (children_of spans) nodes (groups_of spans).roots [] o
        → IsNestedVisit spans none o
        → (forest : Forest) × (finish nodes o ≡ some forest)
          × ((a : ℕ) → planted a forest ≡ (if ltb a (length spans) then 1 else 0))
          × IsNested spans none forest
    finishes none v n = absurd v
    finishes (some v) h n = (
      append_forest v.forest (unreached nodes v.seen),
      refl,
      λ a. ground (
        arith,
        planted-append_forest a v.forest (unreached nodes v.seen),
        planted-unreached a nodes v.seen,
        is_seen-count a v.seen,
        h.totals a,
        h.once (λ b. omega arith) a,
        occurrences-nodes_of spans a,
        only a,
      ),
      append_forest-IsNested spans none v.forest (unreached nodes v.seen) n
          (unreached-IsNested spans nodes v.seen (nodes_of-Fits spans)),
    )
      where
        only : (a : ℕ) → occurrences a nodes ≡ 0 → planted a v.forest ≡ 0
        only a e =
            h.only a (λ id. ground (arith, groups_of-shares spans a id, e))
              (ground (arith, groups_of-shares spans a "", e))
