-- ===== src/FlowClient/SpanTree/Fitting.antt =====
-- What every tree node of `nestSpans` has: the span of its number, and a parent that its span names.
use mokei.Common.{
  ℕ, zero, suc, ◌-◌, ◌≤◌, ◌≡◌, refl, ap, sym, subst, ◌∙◌, String, Option, none, some, List, [], ◌∷◌,
  ◌++◌, Bool, true, false, if◌then◌else◌, ltb, get_elem?, All, arith, string_key, String-discrete,
  ite,
}
use mokei.Common.OrderedMap.{get, get-set}
use mokei.FlowClient.SpanTree.{
  StoredSpan, Node, Forest, nil, tree, numbered, insert, sorted, parent_in, Grouped, siblings_of,
  group_under, group_each, is_seen, Visited, plant, visit_each, visit_roots, append_forest,
  unreached,
}

-- A node that carries the span of its number, and whose parent is the given one, if any.
abbrev IsUnder : Option String → Node → Type 0
IsUnder none n = Unit {0}
IsUnder (some id) n = n.span.parent_span_id ≡ some id

abbrev pub Fits : List StoredSpan → Option String → Node → Type 0
Fits spans p n = (get_elem? spans n.number ≡ some n.span) × IsUnder p n

-- Each tree node carries the span of its number, and its children name it as their parent.
abbrev pub IsNested : List StoredSpan → Option String → Forest → Type 0
IsNested spans p nil = Unit {0}
IsNested spans p (tree n below after) =
    Fits spans p n × IsNested spans (some n.span.span_id) below × IsNested spans p after

pub numbered-Fits :
    (n : ℕ) (spans : List StoredSpan)
    → All
        (λ (x : Node). (n ≤ x.number) × (get_elem? spans (x.number - n) ≡ some x.span))
        (numbered n spans)
unfolding numbered
numbered-Fits n [] = tt
numbered-Fits n (s ∷ spans) = (
  (
    omega arith,
    (let none_before : n - n ≡ 0 = omega arith in ap (get_elem? (s ∷ spans)) none_before),
  ),
  go (numbered (suc n) spans) (numbered-Fits (suc n) spans),
)
  where
    go :
        (nodes : List Node)
        → All
            (λ (x : Node). (suc n ≤ x.number) × (get_elem? spans (x.number - suc n) ≡ some x.span))
            nodes
        → All
            (λ (x : Node). (n ≤ x.number) × (get_elem? (s ∷ spans) (x.number - n) ≡ some x.span))
            nodes
    go [] h = tt
    go (x ∷ nodes) ((l, e), h) =
        let step : x.number - n ≡ suc (x.number - suc n) = omega arith in
        ((omega arith, ap (get_elem? (s ∷ spans)) step ∙ e), go nodes h)

module _ (P : Node → Type 0) where
  insert-All : (n : Node) (nodes : List Node) → P n → All P nodes → All P (insert n nodes)
  unfolding insert
  insert-All n [] h k = (h, tt)
  insert-All n (m ∷ nodes) h k =
      go (ltb m.span.start_time n.span.start_time) (insert-All n nodes h k.1)
    where
      go :
          (b : Bool)
          → All P (insert n nodes)
          → All P (if b then m ∷ insert n nodes else n ∷ m ∷ nodes)
      go true r = (k.0, r)
      go false r = (h, k)

  pub sorted-All : (nodes : List Node) → All P nodes → All P (sorted nodes)
  unfolding sorted
  sorted-All [] h = tt
  sorted-All (n ∷ nodes) h = insert-All n (sorted nodes) h.0 (sorted-All nodes h.1)

  All-snoc : (nodes : List Node) (n : Node) → All P nodes → P n → All P (nodes ++ n ∷ [])
  All-snoc [] n h k = (k, tt)
  All-snoc (m ∷ nodes) n h k = (h.0, All-snoc nodes n h.1 k)

module _ (spans : List StoredSpan) where
  pub record Groups (g : Grouped) : Type 0 where
    pub roots_fit : All (Fits spans none) g.roots
    pub children_fit : (id : String) → All (Fits spans (some id)) (siblings_of (get g.children id))

  parent_in-eq : (p : Option String) (id : String) → parent_in spans p ≡ some id → p ≡ some id
  unfolding parent_in
  parent_in-eq none id h = cc
  parent_in-eq (some parent) id h = ground (arith, h)

  group_under-Groups :
      (p : Option String) (n : Node) (g : Grouped)
      → Fits spans none n
      → ((id : String) → p ≡ some id → n.span.parent_span_id ≡ some id)
      → Groups g
      → Groups (group_under p n g)
  unfolding group_under
  group_under-Groups none n g f h k = record {
    roots_fit = All-snoc (Fits spans none) g.roots n k.roots_fit f;
    children_fit = k.children_fit;
  }
  group_under-Groups (some parent) n g f h k = record {
    roots_fit = k.roots_fit;
    children_fit = λ id.
        subst (λ o. All (Fits spans (some id)) (siblings_of o))
          (sym (get-set g.children parent id more)) (at id (String-discrete parent id));
  }
    where
      more : List Node
      more = siblings_of (get g.children parent) ++ n ∷ []

      at :
          (id : String) (d : Dec (parent ≡ id))
          → All (Fits spans (some id)) (siblings_of (ite d (some more) (get g.children id)))
      at id (yes e) =
          subst (λ x. All (Fits spans (some x)) more) e
            (All-snoc (Fits spans (some parent)) (siblings_of (get g.children parent)) n
              (k.children_fit parent) (f.0, h parent refl))
      at id (no e) = k.children_fit id

  pub group_each-Groups :
      (nodes : List Node) (g : Grouped)
      → All (Fits spans none) nodes
      → Groups g
      → Groups (group_each spans nodes g)
  unfolding group_each
  group_each-Groups [] g f h = h
  group_each-Groups (n ∷ nodes) g f h =
      group_each-Groups nodes (group_under (parent_in spans n.span.parent_span_id) n g) f.1 (
        group_under-Groups (parent_in spans n.span.parent_span_id) n g f.0
          (λ id. parent_in-eq n.span.parent_span_id id) h)

  -- A visit that ends has visited nodes that fit.
  unfoldable pub IsNestedVisit : Option String → Option Visited → Type 0
  IsNestedVisit p none = Unit {0}
  IsNestedVisit p (some v) = IsNested spans p v.forest

  plant-IsNested :
      (p : Option String) (n : Node) (below : Option Visited) (next : List ℕ → Option Visited)
      → Fits spans p n
      → IsNestedVisit (some n.span.span_id) below
      → ((seen : List ℕ) → IsNestedVisit p (next seen))
      → IsNestedVisit p (plant n below next)
  unfolding IsNestedVisit
  plant-IsNested p n none next f b k = tt
  plant-IsNested p n (some v) next f b k = go (next v.seen) (k v.seen)
    where
      go :
          (o : Option Visited)
          → IsNestedVisit p o
          → IsNestedVisit p (elim o [
            | none ↦ none
            | some after ↦
                some (record { forest = tree n v.forest after.forest; seen = after.seen })
          ])
      go none c = tt
      go (some w) c = (f, b, c)

  module _ (children : String → List Node)
      (fit : (id : String) → All (Fits spans (some id)) (children id)) where
    visit_each-IsNested :
        (p : Option String) (depth : ℕ) (nodes : List Node) (seen : List ℕ)
        → All (Fits spans p) nodes
        → IsNestedVisit p (visit_each children depth nodes seen)
    unfolding visit_each IsNestedVisit
    visit_each-IsNested p depth [] seen h = tt
    visit_each-IsNested p zero (n ∷ nodes) seen h = tt
    visit_each-IsNested p (suc depth) (n ∷ nodes) seen h =
        elim (is_seen n.number seen)
          as (λ b. IsNestedVisit p (elim b [
            | true ↦ visit_each children (suc depth) nodes seen
            | false ↦
                plant n (visit_each children depth (children n.span.span_id) (n.number ∷ seen))
                  (visit_each children (suc depth) nodes)
          ])) [
            | true ↦ visit_each-IsNested p (suc depth) nodes seen h.1
            | false ↦
                plant-IsNested p n
                  (visit_each children depth (children n.span.span_id) (n.number ∷ seen))
                  (visit_each children (suc depth) nodes) h.0
                  (visit_each-IsNested (some n.span.span_id) depth (children n.span.span_id)
                    (n.number ∷ seen) (fit n.span.span_id))
                  (λ s. visit_each-IsNested p (suc depth) nodes s h.1)
          ]

    pub visit_roots-IsNested :
        (depth : ℕ) (nodes : List Node) (seen : List ℕ)
        → All (Fits spans none) nodes
        → IsNestedVisit none (visit_roots children depth nodes seen)
    unfolding visit_roots IsNestedVisit
    visit_roots-IsNested depth [] seen h = tt
    visit_roots-IsNested depth (n ∷ nodes) seen h =
        plant-IsNested none n
          (visit_each children depth (children n.span.span_id) (n.number ∷ seen))
          (visit_roots children depth nodes) h.0
          (visit_each-IsNested (some n.span.span_id) depth (children n.span.span_id)
            (n.number ∷ seen) (fit n.span.span_id))
          (λ s. visit_roots-IsNested depth nodes s h.1)

  pub append_forest-IsNested :
      (p : Option String) (f more : Forest)
      → IsNested spans p f
      → IsNested spans p more
      → IsNested spans p (append_forest f more)
  unfolding append_forest
  append_forest-IsNested p nil more h k = k
  append_forest-IsNested p (tree n below after) more (f, b, a) k =
      (f, b, append_forest-IsNested p after more a k)

  pub unreached-IsNested :
      (nodes : List Node) (seen : List ℕ)
      → All (Fits spans none) nodes
      → IsNested spans none (unreached nodes seen)
  unfolding unreached
  unreached-IsNested [] seen h = tt
  unreached-IsNested (n ∷ nodes) seen h =
      go (is_seen n.number seen) (unreached-IsNested nodes seen h.1)
    where
      go :
          (b : Bool)
          → IsNested spans none (unreached nodes seen)
          → IsNested spans none
              (if b then unreached nodes seen else tree n nil (unreached nodes seen))
      go true r = r
      go false r = (h.0, tt, r)
