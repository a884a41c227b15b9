-- ===== src/FlowClient/SpanTree/Visiting.antt =====
-- `visit` reaches each node at most once, and needs no more depth than there are nodes.
use mokei.Common.{
  ℕ, zero, suc, ◌+◌, ◌≤◌, ◌<◌, ◌≡◌, refl, String, Option, none, some, List, [], ◌∷◌, Bool, true,
  false, if◌then◌else◌, count, arith,
}
use mokei.FlowClient.SpanTree.{Node, tree, is_seen, Visited, plant, visit_each, visit_roots}
use mokei.FlowClient.SpanTree.Counting.{occurrences, planted, is_seen-count}

-- How many of the nodes were not seen.
abbrev pub unseen : List Node → List ℕ → ℕ
unseen [] seen = 0
unseen (n ∷ nodes) seen = (if is_seen n.number seen then 0 else 1) + unseen nodes seen

unseen-le :
    (all : List Node) (xs ys : List ℕ)
    → ((a : ℕ) → count a xs ≤ count a ys)
    → unseen all ys ≤ unseen all xs
unseen-le [] xs ys h = omega arith
unseen-le (n ∷ all) xs ys h =
    ground (
      arith,
      h n.number,
      unseen-le all xs ys h,
      is_seen-count n.number xs,
      is_seen-count n.number ys,
    )

unseen-cons :
    (all : List Node) (a : ℕ) (xs : List ℕ)
    → is_seen a xs ≡ false
    → 0 < occurrences a all
    → unseen all (a ∷ xs) < unseen all xs
unseen-cons [] a xs h k = ground arith
unseen-cons (n ∷ all) a xs h k = ground (
  arith,
  unseen-le all xs (a ∷ xs) (λ b. ground arith),
  unseen-cons all a xs h,
  is_seen-count n.number (a ∷ xs),
  is_seen-count n.number xs,
)

module _ (children : String → List Node) (all : List Node) where
  -- The visit of some nodes has a result; it is told apart which numbers it adds to those seen.
  pub record Adds (nodes : List Node) (seen : List ℕ) (v : Visited) : Type 0 where
    pub totals : (a : ℕ) → planted a v.forest + count a seen ≡ count a v.seen
    pub once : ((a : ℕ) → count a seen ≤ 1) → (a : ℕ) → count a v.seen ≤ 1
    pub only :
        (a : ℕ)
        → ((id : String) → occurrences a (children id) ≡ 0)
        → occurrences a nodes ≡ 0
        → planted a v.forest ≡ 0

  abbrev pub Visits : List Node → List ℕ → Option Visited → Type 0
  Visits nodes seen none = ⊥
  Visits nodes seen (some v) = Adds nodes seen v

  plant-Visits :
      (n : Node) (nodes : List Node) (seen : List ℕ) (below : Option Visited)
      (next : List ℕ → Option Visited)
      → count n.number seen ≡ 0
      → Visits (children n.span.span_id) (n.number ∷ seen) below
      → ((v : Visited)
          → Adds (children n.span.span_id) (n.number ∷ seen) v
          → Visits nodes v.seen (next v.seen))
      → Visits (n ∷ nodes) seen (plant n below next)
  plant-Visits n nodes seen none next h b k = b
  plant-Visits n nodes seen (some v) next h b k = go (next v.seen) (k v b)
    where
      go :
          (o : Option Visited)
          → Visits nodes v.seen o
          → Visits (n ∷ nodes) seen (elim o [
            | none ↦ none
            | some after ↦
                some (record { forest = tree n v.forest after.forest; seen = after.seen })
          ])
      go none c = c
      go (some w) c = record {
        totals = λ a. ground (arith, b.totals a, c.totals a);
        once = λ l. c.once (b.once (λ a. ground (arith, l a)));
        only = λ a e z. ground (arith, b.only a e (e n.span.span_id), c.only a e);
      }

  Visits-skip :
      (n : Node) (nodes : List Node) (seen : List ℕ) (o : Option Visited)
      → Visits nodes seen o
      → Visits (n ∷ nodes) seen o
  Visits-skip n nodes seen none h = h
  Visits-skip n nodes seen (some v) h = record {
    totals = h.totals;
    once = h.once;
    only = λ a e z. h.only a e (omega arith);
  }

  unseen-visited :
      (nodes : List Node) (seen : List ℕ) (v : Visited)
      → Adds nodes seen v
      → unseen all v.seen ≤ unseen all seen
  unseen-visited nodes seen v h = unseen-le all seen v.seen (λ a. ground (arith, h.totals a))

  visit_each-Visits :
      ((a : ℕ) (id : String) → occurrences a all ≡ 0 → occurrences a (children id) ≡ 0)
      → (depth : ℕ) (nodes : List Node) (seen : List ℕ)
      → ((a : ℕ) → occurrences a all ≡ 0 → occurrences a nodes ≡ 0)
      → unseen all seen < depth
      → Visits nodes seen (visit_each children depth nodes seen)
  unfolding visit_each
  visit_each-Visits within depth [] seen inside h = record {
    totals = λ a. omega arith;
    once = λ l. l;
    only = λ a e z. refl;
  }
  visit_each-Visits within zero (n ∷ nodes) seen inside h = ground arith
  visit_each-Visits within (suc depth) (n ∷ nodes) seen inside h =
      go (is_seen n.number seen) refl
        (λ s l. visit_each-Visits within (suc depth) nodes s (λ a e. ground (arith, inside a e)) l)
        (λ l.
          visit_each-Visits within depth (children n.span.span_id) (n.number ∷ seen)
            (λ a. within a n.span.span_id) l)
    where
      go :
          (b : Bool)
          → is_seen n.number seen ≡ b
          → ((s : List ℕ)
              → unseen all s < suc depth
              → Visits nodes s (visit_each children (suc depth) nodes s))
          → (unseen all (n.number ∷ seen) < depth
              → Visits
                  (children n.span.span_id)
                  (n.number ∷ seen)
                  (visit_each children depth (children n.span.span_id) (n.number ∷ seen)))
          → Visits (n ∷ nodes) seen (elim b [
            | true ↦ visit_each children (suc depth) nodes seen
            | false ↦
                plant n
                  (visit_each children depth (children n.span.span_id) (n.number ∷ seen))
                  (visit_each children (suc depth) nodes)
          ])
      go true q rest below =
          Visits-skip n nodes seen (visit_each children (suc depth) nodes seen) (rest seen h)
      go false q rest below =
          let known : 0 < occurrences n.number all = ground (arith, inside n.number) in
          let fewer = unseen-cons all n.number seen q known in
          plant-Visits n nodes seen
            (visit_each children depth (children n.span.span_id) (n.number ∷ seen))
            (visit_each children (suc depth) nodes) (ground (arith, q, is_seen-count n.number seen))
            (below (omega arith))
            (λ v w. rest v.seen (
              ground
                (arith, unseen-visited (children n.span.span_id) (n.number ∷ seen) v w, fewer, h)))

  -- Roots that stand once, and are no child, are not seen before they are visited.
  pub visit_roots-Visits :
      ((a : ℕ) (id : String) → occurrences a all ≡ 0 → occurrences a (children id) ≡ 0)
      → (depth : ℕ) (nodes : List Node) (seen : List ℕ)
      → ((a : ℕ) → occurrences a all ≡ 0 → occurrences a nodes ≡ 0)
      → ((a : ℕ) → occurrences a nodes ≤ 1)
      → ((a : ℕ)
          → 0 < occurrences a nodes
          → (count a seen ≡ 0) × ((id : String) → occurrences a (children id) ≡ 0))
      → unseen all seen ≤ depth
      → Visits nodes seen (visit_roots children depth nodes seen)
  unfolding visit_roots
  visit_roots-Visits within depth [] seen inside single fresh h = record {
    totals = λ a. omega arith;
    once = λ l. l;
    only = λ a e z. refl;
  }
  visit_roots-Visits within depth (n ∷ nodes) seen inside single fresh h =
      let (new, no_child) = fresh n.number (ground arith) in
      let q : is_seen n.number seen ≡ false = ground (arith, is_seen-count n.number seen) in
      let fewer = unseen-cons all n.number seen q (ground (arith, inside n.number)) in
      plant-Visits n nodes seen
        (visit_each children depth (children n.span.span_id) (n.number ∷ seen))
        (visit_roots children depth nodes) new
        (visit_each-Visits within depth (children n.span.span_id) (n.number ∷ seen)
          (λ a. within a n.span.span_id) (omega arith))
        (λ v w.
          visit_roots-Visits within depth nodes v.seen (λ a e. ground (arith, inside a e))
            (λ a. ground (arith, single a))
            (λ a l.
              let (unused, roots_only) = fresh a (omega arith) in
              (
                ground (
                  arith,
                  w.totals a,
                  w.only a roots_only (roots_only n.span.span_id),
                  single a,
                  unused,
                  l,
                ),
                roots_only,
              ))
            (ground
              (arith, unseen-visited (children n.span.span_id) (n.number ∷ seen) v w, fewer, h)))
