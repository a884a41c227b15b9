-- ===== src/Tasks/Changes/Waiting.antt =====
-- What `#waitForOutcome` reads from a record is never taken back by a later one.
use mokei.Common.{
  ℕ, ◌≡◌, ◌≢◌, refl, sym, ap, ◌∙◌, Option, none, some, List, [], ◌∷◌, ◌++◌, Bool, true, false,
  is_some, arith, inl, inr, Bool-cases,
}
use mokei.Tasks.Record.{
  TaskRecord, InputRecord, latest, settle_latest, is_terminal, InputOutcome, answered, withdrawn,
}
use mokei.Tasks.Changes.{
  Action, Change, unchanged, patched, raises, apply, apply_each, applied, change, check,
  check_entry, find_input, outcome_of, waits,
}
use mokei.Tasks.Changes.Moves.{Moves, same, adds, settles, MovesBy, change-MovesBy, apply-terminal}

find_input-append :
    (id : ℕ) (es : List InputRecord) (e f : InputRecord)
    → find_input id es ≡ some e
    → find_input id (es ++ f ∷ []) ≡ some e
unfolding find_input
find_input-append id [] e f h = cc
find_input-append id (a ∷ es) e f h = ground (arith, find_input-append id es e f)

find_input-settle_latest :
    (id : ℕ) (es : List InputRecord) (a e f : InputRecord)
    → latest es ≡ some a
    → is_some a.outcome ≡ false
    → f.id ≡ a.id
    → find_input id es ≡ some e
    → is_some e.outcome ≡ true
    → find_input id (settle_latest es f) ≡ some e
unfolding find_input latest settle_latest
find_input-settle_latest id [] a e f l u d h s = cc
find_input-settle_latest id (b ∷ []) a e f l u d h s = ground arith
find_input-settle_latest id (b ∷ c ∷ rest) a e f l u d h s =
    ground (arith, find_input-settle_latest id (c ∷ rest) a e f l u d)

find_input-Moves :
    (id : ℕ) (r s : TaskRecord) (e : InputRecord)
    → Moves r s
    → find_input id r.inputs ≡ some e
    → is_some e.outcome ≡ true
    → find_input id s.inputs ≡ some e
find_input-Moves id r s e (same i) h o = ap (find_input id) i ∙ h
find_input-Moves id r s e (adds f i) h o =
    ap (find_input id) i ∙ find_input-append id r.inputs e f h
find_input-Moves id r s e (settles a f p d i) h o =
    ap (find_input id) i
    ∙ find_input-settle_latest id r.inputs a e f p.latest_is (ap is_some p.unsettled) d h o

find_input-applied :
    (id : ℕ) (r : TaskRecord) (c : Change) (e : InputRecord)
    → MovesBy r c
    → find_input id r.inputs ≡ some e
    → is_some e.outcome ≡ true
    → find_input id (applied r c).inputs ≡ some e
unfolding applied
find_input-applied id r unchanged e m h o = h
find_input-applied id r (patched patch) e m h o = find_input-Moves id r (patch r) e m h o
find_input-applied id r (raises x) e m h o = h

find_input-apply_each :
    (id : ℕ) (actions : List Action) (r : TaskRecord) (e : InputRecord)
    → find_input id r.inputs ≡ some e
    → is_some e.outcome ≡ true
    → find_input id (apply_each actions r).inputs ≡ some e
unfolding apply_each apply
find_input-apply_each id [] r e h o = h
find_input-apply_each id (a ∷ rest) r e h o =
    find_input-apply_each id rest (apply a r) e
      (find_input-applied id r (change a r) e (change-MovesBy a r) h o) o

apply_each-terminal :
    (actions : List Action) (r : TaskRecord) → is_terminal r ≡ true → apply_each actions r ≡ r
unfolding apply_each
apply_each-terminal [] r h = refl
apply_each-terminal (a ∷ rest) r h =
    ap (apply_each rest) (apply-terminal a r h) ∙ apply_each-terminal rest r h

-- A settled entry is read in the same way whether or not the task has ended.
check_entry-settled :
    (id : ℕ) (b c : Bool) (e : InputRecord) (o : Option InputOutcome)
    → is_some o ≡ true
    → check_entry id b (some e) o ≡ check_entry id c (some e) o
unfolding check_entry
check_entry-settled id b c e none h = cc
check_entry-settled id b c e (some answered) h = refl
check_entry-settled id b c e (some withdrawn) h = refl

some_of :
    (id : ℕ) (e : InputRecord) (o : Option InputOutcome)
    → check_entry id false (some e) o ≢ waits
    → is_some o ≡ true
unfolding check_entry
some_of id e none h = elim (h refl) [ ]
some_of id e (some x) h = refl

check_entry-waits :
    (id : ℕ) (o : Option InputRecord)
    → check_entry id false o (outcome_of o) ≢ waits
    → (e : InputRecord) × ((o ≡ some e) × (is_some e.outcome ≡ true))
unfolding check_entry outcome_of
check_entry-waits id none h = elim (h refl) [ ]
check_entry-waits id (some e) h = (e, (refl, some_of id e e.outcome h))

outcome_kept :
    (id : ℕ) (actions : List Action) (r : TaskRecord) (e : InputRecord)
    → find_input id r.inputs ≡ some e
    → is_some e.outcome ≡ true
    → check id (some (apply_each actions r)) ≡ check id (some r)
unfolding check
outcome_kept id actions r e h o =
    ap (λ x. check_entry id (is_terminal (apply_each actions r)) x (outcome_of x))
      (find_input-apply_each id actions r e h o)
    ∙ check_entry-settled id (is_terminal (apply_each actions r)) (is_terminal r) e e.outcome o
    ∙ ap (λ x. check_entry id (is_terminal r) x (outcome_of x)) (sym h)

-- Once a wait for the answers of an input request would end on a record of the task, with the
-- answers, with a withdrawal or with the end of the task, it ends in the same way on every record
-- that later changes make of it. So a reader of an old record only waits longer.
pub outcome_kept_by :
    (id : ℕ) (actions : List Action) (r : TaskRecord)
    → check id (some r) ≢ waits
    → check id (some (apply_each actions r)) ≡ check id (some r)
unfolding check
outcome_kept_by id actions r h = elim (Bool-cases (is_terminal r)) [
  | inl t ↦ ap (λ s. check id (some s)) (apply_each-terminal actions r t)
  | inr t ↦
      let (e, (f, o)) = check_entry-waits id (find_input id r.inputs) (λ p. h (
        ap (λ b. check_entry id b (find_input id r.inputs) (outcome_of (find_input id r.inputs))) t
        ∙ p)) in
      outcome_kept id actions r e f o
]
