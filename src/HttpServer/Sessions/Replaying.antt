-- ===== src/HttpServer/Sessions/Replaying.antt =====
-- What a client is sent again after it names the last event that it received.
use mokei.Common.{
  ℕ, ◌-◌, ◌<◌, ◌≡◌, ◌≢◌, refl, sym, ap, ◌∙◌, String, none, some, List, [], ◌∷◌, ◌++◌, Bool, true,
  false, arith, string_key, if◌then◌else◌, ltb, length, length-append, drop, drop-drop, drop_all,
  zero, suc, drop-append, length-drop, append_assoc, append-nil,
}
use mokei.Sse.{SseEvent, events_past}
use mokei.Sse.Replay.{keep_last}
use mokei.HttpServer.Sessions.{Session, append_replay, events_after, or_everything}

-- The session after its streams recorded some events.
unfoldable pub append_each : List SseEvent → ℕ → Session → Session
append_each [] cap s = s
append_each (e ∷ es) cap s = append_each es cap (append_replay s e cap)

append_replay-log :
    (s : Session) (e : SseEvent) (cap : ℕ)
    → (append_replay s e cap).replay_log ≡ keep_last cap (s.replay_log ++ e ∷ [])
unfolding append_replay keep_last
append_replay-log s e cap = go (ltb cap (length (s.replay_log ++ e ∷ []))) refl
  where
    go :
        (b : Bool)
        → ltb cap (length (s.replay_log ++ e ∷ [])) ≡ b
        → (if b
            then record s {
              replay_log = drop (length (s.replay_log ++ e ∷ []) - cap) (s.replay_log ++ e ∷ []);
            }
            else record s { replay_log = s.replay_log ++ e ∷ [] }).replay_log
          ≡ drop (length (s.replay_log ++ e ∷ []) - cap) (s.replay_log ++ e ∷ [])
    go true h = refl
    go false h =
        let none_over : length (s.replay_log ++ e ∷ []) - cap ≡ 0 = ground arith in
        sym (ap (λ k. drop k (s.replay_log ++ e ∷ [])) none_over)

keep_last-keep_last :
    (cap : ℕ) (es : List SseEvent) (e : SseEvent)
    → keep_last cap (keep_last cap es ++ e ∷ []) ≡ keep_last cap (es ++ e ∷ [])
unfolding keep_last
keep_last-keep_last cap es e =
    let a = length-append es (e ∷ []) in
    let b = length-drop (length es - cap) es in
    let c = length-append (drop (length es - cap) es) (e ∷ []) in
    ap (λ l. drop (length (drop (length es - cap) es ++ e ∷ []) - cap) l)
      (sym (drop-append (length es - cap) es (e ∷ []) (omega arith)))
    ∙ drop-drop (length es - cap) (length (drop (length es - cap) es ++ e ∷ []) - cap)
        (es ++ e ∷ [])
    ∙ ap (λ k. drop k (es ++ e ∷ [])) (omega arith)

append_each-log :
    (es given : List SseEvent) (cap : ℕ) (s : Session)
    → s.replay_log ≡ keep_last cap given
    → (append_each es cap s).replay_log ≡ keep_last cap (given ++ es)
unfolding append_each
append_each-log [] given cap s h = h ∙ ap (keep_last cap) (sym (append-nil given))
append_each-log (e ∷ es) given cap s h =
    append_each-log es (given ++ e ∷ []) cap (append_replay s e cap) (
      append_replay-log s e cap
      ∙ ap (λ l. keep_last cap (l ++ e ∷ [])) h
      ∙ keep_last-keep_last cap given e)
    ∙ ap (keep_last cap) (append_assoc given (e ∷ []) es)

-- The session after all that a stream's `onEvent` was told, newest first.
unfoldable pub told : List SseEvent → ℕ → Session → Session
told [] cap s = s
told (e ∷ older) cap s = append_replay (told older cap s) e cap

-- No event of a list has the id.
abbrev pub IsUnused : String → List SseEvent → Type 0
IsUnused id [] = Unit {0}
IsUnused id (e ∷ es) = (e.id ≢ id) × IsUnused id es

drop-IsUnused :
    (id : String) (k : ℕ) (es : List SseEvent) → IsUnused id es → IsUnused id (drop k es)
drop-IsUnused id zero es h = h
drop-IsUnused id (suc k) [] h = h
drop-IsUnused id (suc k) (e ∷ es) h = drop-IsUnused id k es h.1

events_past-append :
    (before after : List SseEvent) (e : SseEvent)
    → IsUnused e.id before
    → events_past e.id (before ++ e ∷ after) ≡ some after
unfolding events_past
events_past-append [] after e h = ground arith
events_past-append (x ∷ before) after e h = ground (arith, h, events_past-append before after e h.1)

events_past-none : (id : String) (es : List SseEvent) → IsUnused id es → events_past id es ≡ none
unfolding events_past
events_past-none id [] h = refl
events_past-none id (x ∷ es) h = ground (arith, h, events_past-none id es h.1)

-- When the streams of a session record some events, an event whose id no earlier one has, and then
-- fewer events than the log can hold, a client that names the event is sent exactly what was
-- recorded after it; and a client that names an id that none of them has is sent all that the log
-- still holds, the latest events.
pub events_after_lem :
    (cap : ℕ) (s : Session) (before after : List SseEvent) (e : SseEvent) (id : String)
    → s.replay_log ≡ []
    → length after < cap
    → IsUnused e.id before
    → IsUnused id (before ++ e ∷ after)
    → let v = append_each (before ++ e ∷ after) cap s in
      (events_after v e.id ≡ after) × (events_after v id ≡ keep_last cap (before ++ e ∷ after))
unfolding events_after or_everything keep_last
events_after_lem cap s before after e id h l u w =
    let all = before ++ e ∷ after in
    let k = length all - cap in
    let n = length-append before (e ∷ after) in
    let log : (append_each all cap s).replay_log ≡ keep_last cap all =
      append_each-log all [] cap s (h ∙ sym (drop_all (0 - cap) [] (omega arith))) in
    let kept : drop k all ≡ drop k before ++ e ∷ after =
      drop-append k before (e ∷ after) (omega arith) in
    (
      ap (λ l. or_everything l (events_past e.id l)) (log ∙ kept)
          ∙ ap (or_everything (drop k before ++ e ∷ after))
              (events_past-append (drop k before) after e (drop-IsUnused e.id k before u)),
      ap (λ l. or_everything l (events_past id l)) log
          ∙ ap (or_everything (drop k all))
              (events_past-none id (drop k all) (drop-IsUnused id k all w)),
    )
