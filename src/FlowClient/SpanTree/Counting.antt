-- ===== src/FlowClient/SpanTree/Counting.antt =====
-- How often a span stands in the lists and trees of `nestSpans`.
use mokei.Common.{
  ℕ, suc, ◌+◌, ◌≤◌, ◌≡◌, refl, String, Option, none, some, List, [], ◌∷◌, ◌++◌, if◌then◌else◌, ltb,
  leb, length, ite, ℕ_discrete, count, arith, string_key, ◌&&◌,
}
use mokei.Common.OrderedMap.{get, get-set}
use mokei.FlowClient.SpanTree.{
  StoredSpan, Node, Forest, nil, tree, numbered, insert, sorted, Grouped, siblings_of, parent_in,
  group_under, group_each, is_seen, append_forest, unreached,
}

-- How often the node of a number stands in a list of nodes, and in a forest.
abbrev pub occurrences : ℕ → List Node → ℕ
occurrences a [] = 0
occurrences a (n ∷ nodes) = ite (ℕ_discrete n.number a) 1 0 + occurrences a nodes

abbrev pub planted : ℕ → Forest → ℕ
planted a nil = 0
planted a (tree n below after) = ite (ℕ_discrete n.number a) 1 0 + planted a below + planted a after

occurrences-insert :
    (a : ℕ) (n : Node) (nodes : List Node)
    → occurrences a (insert n nodes) ≡ occurrences a (n ∷ nodes)
unfolding insert
occurrences-insert a n [] = refl
occurrences-insert a n (m ∷ nodes) = ground (arith, occurrences-insert a n nodes)

pub occurrences-sorted :
    (a : ℕ) (nodes : List Node) → occurrences a (sorted nodes) ≡ occurrences a nodes
unfolding sorted
occurrences-sorted a [] = refl
occurrences-sorted a (n ∷ nodes) =
    ground (arith, occurrences-insert a n (sorted nodes), occurrences-sorted a nodes)

pub occurrences-numbered :
    (a n : ℕ) (spans : List StoredSpan)
    → occurrences a (numbered n spans) ≡ (if leb n a && ltb a (n + length spans) then 1 else 0)
unfolding numbered
occurrences-numbered a n [] = ground arith
occurrences-numbered a n (s ∷ spans) = ground (arith, occurrences-numbered a (suc n) spans)

occurrences-append :
    (a : ℕ) (nodes : List Node) (n : Node)
    → occurrences a (nodes ++ n ∷ []) ≡ occurrences a nodes + ite (ℕ_discrete n.number a) 1 0
occurrences-append a [] n = omega arith
occurrences-append a (m ∷ nodes) n = ground (arith, occurrences-append a nodes n)

-- A node is grouped once: as a root, or under one parent.
pub record Shares (bound : ℕ → ℕ) (g : Grouped) : Type 0 where
  pub shares :
      (a : ℕ) (id : String)
      → occurrences a g.roots + occurrences a (siblings_of (get g.children id)) ≤ bound a

group_under-Shares :
    (p : Option String) (n : Node) (bound : ℕ → ℕ) (g : Grouped)
    → Shares bound g
    → Shares (λ a. ite (ℕ_discrete n.number a) 1 0 + bound a) (group_under p n g)
unfolding group_under siblings_of
group_under-Shares none n bound g h = record {
  shares = λ a id. ground (arith, h.shares a id, occurrences-append a g.roots n);
}
group_under-Shares (some parent) n bound g h = record {
  shares = λ a id. ground (
    arith,
    h.shares a id,
    h.shares a parent,
    occurrences-append a (siblings_of (get g.children parent)) n,
    get-set g.children parent id (siblings_of (get g.children parent) ++ n ∷ []),
  );
}

pub group_each-Shares :
    (spans : List StoredSpan) (nodes : List Node) (bound : ℕ → ℕ) (g : Grouped)
    → Shares bound g
    → Shares (λ a. occurrences a nodes + bound a) (group_each spans nodes g)
unfolding group_each
group_each-Shares spans [] bound g h = record { shares = λ a id. ground (arith, h.shares a id) }
group_each-Shares spans (n ∷ nodes) bound g h =
    let ih =
      group_each-Shares spans nodes (λ a. ite (ℕ_discrete n.number a) 1 0 + bound a)
        (group_under (parent_in spans n.span.parent_span_id) n g)
        (group_under-Shares (parent_in spans n.span.parent_span_id) n bound g h) in
    record { shares = λ a id. ground (arith, ih.shares a id) }

pub is_seen-count : (n : ℕ) (seen : List ℕ) → is_seen n seen ≡ ltb 0 (count n seen)
unfolding is_seen
is_seen-count n [] = refl
is_seen-count n (m ∷ seen) = ground (arith, is_seen-count n seen)

pub planted-append_forest :
    (a : ℕ) (f more : Forest) → planted a (append_forest f more) ≡ planted a f + planted a more
unfolding append_forest
planted-append_forest a nil more = omega arith
planted-append_forest a (tree n below after) more =
    ground (arith, planted-append_forest a after more)

pub planted-unreached :
    (a : ℕ) (nodes : List Node) (seen : List ℕ)
    → planted a (unreached nodes seen) ≡ (if is_seen a seen then 0 else occurrences a nodes)
unfolding unreached
planted-unreached a [] seen = ground arith
planted-unreached a (n ∷ nodes) seen = ground (arith, planted-unreached a nodes seen)
