-- ===== src/Sse/Ring.antt =====
-- The slots of the replay buffer of packages/http-server/src/sse-writer.ts, and a push into them.
use mokei.Common.{
  ℕ, zero, suc, ◌+◌, ◌-◌, ◌%◌, ◌<◌, ◌≤◌, ◌≡◌, ◌≢◌, refl, sym, ap, subst, ◌∙◌, ◌⊎◌, inl, inr, some,
  List, [], ◌∷◌, ◌++◌, length, length-append, get_elem?, arith, dec_lt,
}
use native.Mathlib.Nat.{mod-eq_of_lt, mod-add-mod, mod-lt, mod-eq-sub-mod, add-mod_right}
use mokei.Sse.{SseEvent, SseWriter, Slots, store_at}

-- The buffer holds the events `es`, the oldest at `buffer_start`.
pub record Holds (w : SseWriter) (es : List SseEvent) : Type 0 where
  pub size_pos : 0 < w.buffer_size
  pub start_lt : w.buffer_start < w.buffer_size
  pub count_is : w.buffer_count ≡ length es
  pub count_le : w.buffer_count ≤ w.buffer_size
  pub slots :
      (i : ℕ)
      → i < w.buffer_count
      → w.buffer ((w.buffer_start + i) % w.buffer_size) ≡ get_elem? es i

wrap : (a n : ℕ) → 0 < n → a < n + n → ((a < n) × (a % n ≡ a)) ⊎ ((n ≤ a) × (a % n + n ≡ a))
wrap a n p h = elim (dec_lt a n) [
  | yes l ↦ inl (l, mod-eq_of_lt l)
  | no k ↦ inr (omega arith, wrapped (omega arith))
]
  where
    wrapped : n ≤ a → a % n + n ≡ a
    wrapped l =
        let e : a % n ≡ a - n = mod-eq-sub-mod l ∙ mod-eq_of_lt (omega arith) in
        ap (λ x. x + n) e ∙ omega arith

-- Two places of a ring are different slots.
slot_apart : (s n i j : ℕ) → s < n → i < j → j < n → (s + i) % n ≢ (s + j) % n
slot_apart s n i j h l m e = elim (wrap (s + i) n (omega arith) (omega arith)) [
  | inl a ↦ elim (wrap (s + j) n (omega arith) (omega arith)) [
    | inl b ↦ omega arith
    | inr b ↦ omega arith
  ]
  | inr a ↦ elim (wrap (s + j) n (omega arith) (omega arith)) [
    | inl b ↦ omega arith
    | inr b ↦ omega arith
  ]
]

get_elem?-append_lt :
    (es : List SseEvent) (e : SseEvent) (i : ℕ)
    → i < length es
    → get_elem? (es ++ e ∷ []) i ≡ get_elem? es i
get_elem?-append_lt [] e i h = ground arith
get_elem?-append_lt (a ∷ es) e zero h = refl
get_elem?-append_lt (a ∷ es) e (suc i) h = get_elem?-append_lt es e i (omega arith)

get_elem?-append_eq :
    (es : List SseEvent) (e : SseEvent) → get_elem? (es ++ e ∷ []) (length es) ≡ some e
get_elem?-append_eq [] e = refl
get_elem?-append_eq (a ∷ es) e = get_elem?-append_eq es e

store_at_same : (b : Slots) (i j : ℕ) (e : SseEvent) → i ≡ j → store_at b i e j ≡ some e
unfolding store_at
store_at_same b i j e h = ground arith

store_at_other : (b : Slots) (i j : ℕ) (e : SseEvent) → i ≢ j → store_at b i e j ≡ b j
unfolding store_at
store_at_other b i j e h = ground arith

-- A push while there is room.
pub fill-Holds :
    (w : SseWriter) (es : List SseEvent) (e : SseEvent)
    → Holds w es
    → w.buffer_count < w.buffer_size
    → Holds
        (record w {
          buffer = store_at w.buffer ((w.buffer_start + w.buffer_count) % w.buffer_size) e;
          buffer_count = suc w.buffer_count;
        })
        (es ++ e ∷ [])
fill-Holds w es e h l = record {
  size_pos = h.size_pos;
  start_lt = h.start_lt;
  count_is = ap suc h.count_is ∙ sym (length-append es (e ∷ []) ∙ omega arith);
  count_le = omega arith;
  slots = λ i m. elim (dec_lt i w.buffer_count) [
    | yes k ↦
        store_at_other w.buffer ((w.buffer_start + w.buffer_count) % w.buffer_size)
          ((w.buffer_start + i) % w.buffer_size) e
          (λ q. slot_apart w.buffer_start w.buffer_size i w.buffer_count h.start_lt k l (sym q))
        ∙ h.slots i k
        ∙ sym (get_elem?-append_lt es e i (subst (λ x. i < x) h.count_is k))
    | no k ↦
        let same : i ≡ w.buffer_count = omega arith in
        store_at_same w.buffer ((w.buffer_start + w.buffer_count) % w.buffer_size)
          ((w.buffer_start + i) % w.buffer_size) e
          (ap (λ x. (w.buffer_start + x) % w.buffer_size) (sym same))
        ∙ sym (get_elem?-append_eq es e)
        ∙ ap (get_elem? (es ++ e ∷ [])) (sym (same ∙ h.count_is))
  ];
}

add_zero : (n : ℕ) → n + 0 ≡ n
add_zero n = omega arith

-- A push into a full buffer drops the oldest event.
pub evict-Holds :
    (w : SseWriter) (a : SseEvent) (es : List SseEvent) (e : SseEvent)
    → Holds w (a ∷ es)
    → w.buffer_size ≤ w.buffer_count
    → Holds
        (record w {
          buffer = store_at w.buffer w.buffer_start e;
          buffer_start = (w.buffer_start + 1) % w.buffer_size;
        })
        (es ++ e ∷ [])
evict-Holds w a es e h l =
    let full : w.buffer_count ≡ w.buffer_size = omega arith in
    record {
      size_pos = h.size_pos;
      start_lt = mod-lt (w.buffer_start + 1) h.size_pos;
      count_is = h.count_is ∙ sym (length-append es (e ∷ []) ∙ omega arith);
      count_le = h.count_le;
      slots = λ i m.
          let moved : ((w.buffer_start + 1) % w.buffer_size + i) % w.buffer_size
              ≡ (w.buffer_start + suc i) % w.buffer_size =
            mod-add-mod (w.buffer_start + 1) w.buffer_size i
            ∙ ap (λ x. x % w.buffer_size) (omega arith) in
          ap (store_at w.buffer w.buffer_start e) moved ∙ elim (dec_lt (suc i) w.buffer_size) [
            | yes k ↦
                store_at_other w.buffer w.buffer_start ((w.buffer_start + suc i) % w.buffer_size) e
                  (λ q.
                    slot_apart w.buffer_start w.buffer_size 0 (suc i) h.start_lt (omega arith) k (
                      ap (λ x. x % w.buffer_size) (add_zero w.buffer_start)
                      ∙ mod-eq_of_lt h.start_lt
                      ∙ q))
                ∙ h.slots (suc i) (omega arith)
                ∙ sym (get_elem?-append_lt es e i (omega arith))
            | no k ↦
                let same : suc i ≡ w.buffer_size = omega arith in
                let last : length es ≡ i = omega arith in
                store_at_same w.buffer w.buffer_start ((w.buffer_start + suc i) % w.buffer_size) e (
                  sym (
                    ap (λ x. (w.buffer_start + x) % w.buffer_size) same
                    ∙ add-mod_right w.buffer_start w.buffer_size
                    ∙ mod-eq_of_lt h.start_lt))
                ∙ sym (get_elem?-append_eq es e)
                ∙ ap (get_elem? (es ++ e ∷ [])) last
          ];
    }
