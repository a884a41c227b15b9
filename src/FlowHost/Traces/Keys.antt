-- ===== src/FlowHost/Traces/Keys.antt =====
-- The key of a span is its trace with its id: an addition replaces the row of its key in place.
use mokei.Common.{
  ◌≡◌, refl, sym, ap, ◌∙◌, List, [], ◌∷◌, ◌++◌, Bool, true, false, ◌||◌, ◌&&◌, if◌then◌else◌,
  string_key, ◌===◌, arith,
}
use mokei.FlowHost.Traces.{StoredSpan, SpanRow, same_key, has_span, replace_span}

same_key-eq :
    (a b : StoredSpan) → same_key a b ≡ true → (a.trace_id ≡ b.trace_id) × (a.span_id ≡ b.span_id)
unfolding same_key
same_key-eq a b h = ground arith

pub same_key-same :
    (a b c : StoredSpan)
    → same_key a b ≡ true
    → (same_key a c ≡ same_key b c) × (same_key c a ≡ same_key c b)
unfolding same_key
same_key-same a b c h =
    let (p, q) = same_key-eq a b h in
    (
      ap (λ x. x === c.trace_id && a.span_id === c.span_id) p
          ∙ ap (λ x. b.trace_id === c.trace_id && x === c.span_id) q,
      ap (λ x. c.trace_id === x && c.span_id === a.span_id) p
          ∙ ap (λ x. c.trace_id === b.trace_id && c.span_id === x) q,
    )

pub has_span-same :
    (rows : List SpanRow) (a b : StoredSpan)
    → same_key a b ≡ true
    → has_span rows a ≡ has_span rows b
unfolding has_span
has_span-same [] a b h = refl
has_span-same (r ∷ rows) a b h =
    ap (λ x. x || has_span rows a) (same_key-same a b r.value h).1
    ∙ ap (λ x. same_key r.value b || x) (has_span-same rows a b h)

has_span-replace_span :
    (rows : List SpanRow) (x y : StoredSpan) → has_span (replace_span rows x) y ≡ has_span rows y
unfolding has_span replace_span
has_span-replace_span [] x y = refl
has_span-replace_span (r ∷ rows) x y = go (same_key r.value x) refl (has_span-replace_span rows x y)
  where
    go :
        (b : Bool)
        → same_key r.value x ≡ b
        → has_span (replace_span rows x) y ≡ has_span rows y
        → has_span (if b then record r { value = x } ∷ rows else r ∷ replace_span rows x) y
          ≡ (same_key r.value y || has_span rows y)
    go true h ih = ap (λ c. c || has_span rows y) (sym (same_key-same r.value x y h).0)
    go false h ih = ap (λ c. same_key r.value y || c) ih

has_span-snoc :
    (rows : List SpanRow) (r : SpanRow) (y : StoredSpan)
    → has_span (rows ++ r ∷ []) y ≡ (has_span rows y || same_key r.value y)
unfolding has_span
has_span-snoc [] r y = ground arith
has_span-snoc (q ∷ rows) r y = ground (arith, has_span-snoc rows r y)

-- No two rows of a list have the same key.
abbrev pub AreApart : List SpanRow → Type 0
AreApart [] = Unit {0}
AreApart (r ∷ rows) = (has_span rows r.value ≡ false) × AreApart rows

pub AreApart-replace_span :
    (rows : List SpanRow) (x : StoredSpan) → AreApart rows → AreApart (replace_span rows x)
unfolding replace_span
AreApart-replace_span [] x d = tt
AreApart-replace_span (r ∷ rows) x d =
    go (same_key r.value x) refl (AreApart-replace_span rows x d.1)
  where
    go :
        (b : Bool)
        → same_key r.value x ≡ b
        → AreApart (replace_span rows x)
        → AreApart (if b then record r { value = x } ∷ rows else r ∷ replace_span rows x)
    go true h ih = (sym (has_span-same rows r.value x h) ∙ d.0, d.1)
    go false h ih = (has_span-replace_span rows x r.value ∙ d.0, ih)

pub same_key_sym : (a b : StoredSpan) → same_key a b ≡ same_key b a
unfolding same_key
same_key_sym a b = ground arith

pub AreApart-snoc :
    (rows : List SpanRow) (r : SpanRow)
    → has_span rows r.value ≡ false
    → AreApart rows
    → AreApart (rows ++ r ∷ [])
unfolding has_span
AreApart-snoc [] r h d = (refl, tt)
AreApart-snoc (q ∷ rows) r h d = (
  has_span-snoc rows r q.value ∙ ground (arith, d.0, same_key_sym r.value q.value, h),
  AreApart-snoc rows r (ground (arith, h)) d.1,
)
