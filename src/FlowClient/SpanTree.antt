-- ===== src/FlowClient/SpanTree.antt =====
-- packages/flow-client/src/span-tree.ts. A node is an object of its own there: here it goes by the
-- place of its span in the given list.
pub mod Counting
pub mod Visiting
pub mod Fitting
pub mod Nested
mod Tests
use mokei.Common.{
  ℕ, zero, suc, String, Option, none, some, List, [], ◌∷◌, ◌++◌, Bool, true, false, ◌||◌, not,
  if◌then◌else◌, ltb, ◌==◌, length, string_key, ◌===◌, or_else,
}
use mokei.Common.OrderedMap.{OrderedMap, get, set}

-- What `nestSpans` reads of a span.
pub record StoredSpan : Type 0 where
  pub span_id : String
  pub parent_span_id : Option String
  pub start_time : ℕ

pub record Node : Type 0 where
  pub number : ℕ
  pub span : StoredSpan

-- A list of tree nodes: the first one, its children, and the other ones.
pub data Forest : Type 0 where
  nil : Forest
  tree : Node → (children : Forest) → (siblings : Forest) → Forest

unfoldable pub numbered : ℕ → List StoredSpan → List Node
numbered n [] = []
numbered n (s ∷ spans) = record { number = n; span = s } ∷ numbered (suc n) spans

-- `toSorted` is stable: a node stays before the later ones that start at the same time.
unfoldable pub insert : Node → List Node → List Node
insert a [] = a ∷ []
insert a (b ∷ rest) =
    if ltb b.span.start_time a.span.start_time then b ∷ insert a rest else a ∷ b ∷ rest

unfoldable pub sorted : List Node → List Node
unfolding insert
sorted [] = []
sorted (a ∷ rest) = insert a (sorted rest)

unfoldable pub has_id : List StoredSpan → String → Bool
has_id [] id = false
has_id (s ∷ spans) id = s.span_id === id || has_id spans id

-- The parent under which a node is grouped, unless it is a root.
unfoldable pub parent_in : List StoredSpan → Option String → Option String
unfolding has_id
parent_in spans none = none
parent_in spans (some parent) = if has_id spans parent then some parent else none

pub record Grouped : Type 0 where
  pub roots : List Node
  pub children : OrderedMap String (List Node)

unfoldable pub siblings_of : Option (List Node) → List Node
siblings_of none = []
siblings_of (some nodes) = nodes

-- One round of the loop over the nodes.
unfoldable pub group_under : Option String → Node → Grouped → Grouped
unfolding siblings_of
group_under none node g = record g { roots = g.roots ++ node ∷ [] }
group_under (some parent) node g = record g {
  children = set g.children parent (siblings_of (get g.children parent) ++ node ∷ []);
}

unfoldable pub group_each : List StoredSpan → List Node → Grouped → Grouped
unfolding group_under parent_in
group_each spans [] g = g
group_each spans (node ∷ nodes) g =
    group_each spans nodes (group_under (parent_in spans node.span.parent_span_id) node g)

unfoldable pub is_seen : ℕ → List ℕ → Bool
is_seen n [] = false
is_seen n (m ∷ seen) = m == n || is_seen n seen

pub record Visited : Type 0 where
  pub forest : Forest
  pub seen : List ℕ

abbrev pub plant : Node → Option Visited → (List ℕ → Option Visited) → Option Visited
plant node none next = none
plant node (some below) next = elim (next below.seen) [
  | none ↦ none
  | some after ↦ some (record { forest = tree node below.forest after.forest; seen = after.seen })
]

-- The loop of `visit` over the children of a node, each of them visited unless it was seen. It has
-- no result where the depth is used up.
unfoldable pub visit_each : (String → List Node) → ℕ → List Node → List ℕ → Option Visited
unfolding is_seen
visit_each children depth [] seen = some (record { forest = nil; seen = seen })
visit_each children zero (node ∷ nodes) seen = none
visit_each children (suc depth) (node ∷ nodes) seen = elim (is_seen node.number seen) [
  | true ↦ visit_each children (suc depth) nodes seen
  | false ↦
      plant node (visit_each children depth (children node.span.span_id) (node.number ∷ seen))
        (visit_each children (suc depth) nodes)
]

-- The loop over the roots, which are visited in any case.
unfoldable pub visit_roots : (String → List Node) → ℕ → List Node → List ℕ → Option Visited
unfolding visit_each
visit_roots children depth [] seen = some (record { forest = nil; seen = seen })
visit_roots children depth (node ∷ nodes) seen =
    plant node (visit_each children depth (children node.span.span_id) (node.number ∷ seen))
      (visit_roots children depth nodes)

unfoldable pub append_forest : Forest → Forest → Forest
append_forest nil more = more
append_forest (tree node children siblings) more = tree node children (append_forest siblings more)

-- The nodes that no root leads to.
unfoldable pub unreached : List Node → List ℕ → Forest
unfolding is_seen
unreached [] seen = nil
unreached (node ∷ nodes) seen =
    if is_seen node.number seen then unreached nodes seen else tree node nil (unreached nodes seen)

unfoldable pub finish : List Node → Option Visited → Option Forest
unfolding append_forest unreached
finish nodes none = none
finish nodes (some v) = some (append_forest v.forest (unreached nodes v.seen))

unfoldable pub nest_spans : List StoredSpan → Option Forest
unfolding numbered sorted group_each visit_roots finish siblings_of
nest_spans spans =
    let nodes = sorted (numbered 0 spans) in
    let grouped = group_each spans nodes (record { roots = []; children = [] }) in
    finish nodes
      (visit_roots (λ id. siblings_of (get grouped.children id)) (length nodes) grouped.roots [])
