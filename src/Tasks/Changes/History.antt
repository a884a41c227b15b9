-- ===== src/Tasks/Changes/History.antt =====
-- The input requests of a task's record, packages/context-server/src/task-store.ts: what holds of them in
-- every record that packages/context-server/src/task-manager.ts writes.
use mokei.Common.{
  ℕ, suc, ◌+◌, ◌≡◌, refl, sym, subst, String, Option, none, some, List, [], ◌∷◌, ◌++◌, Bool, true,
  false, not, is_some, length, string_key, arith,
}
use mokei.Common.OrderedMap.{has}
use mokei.Tasks.Record.{
  TaskRecord, InputRecord, InputOutcome, answered, withdrawn, TaskStatus, working, input_required,
  completed, failed, cancelled, latest, settle_latest,
}
use mokei.Tasks.Changes.{covers}

-- An open request lacks an answer, and an answered one has them all.
abbrev pub FitsOutcome : Option InputOutcome → Bool → Type 0
FitsOutcome none covered = covered ≡ false
FitsOutcome (some answered) covered = covered ≡ true
FitsOutcome (some withdrawn) covered = Unit {0}

pub record IsSound (e : InputRecord) : Type 0 where
  -- Only what was asked is answered.
  pub asked : (key : String) → has e.requests key ≡ false → has e.responses key ≡ false
  pub fits : FitsOutcome e.outcome (covers e.requests e.responses)

-- Requests numbered from `n`, all of them sound, and all but the last settled.
unfoldable pub IsHistory : ℕ → List InputRecord → Type 0
IsHistory n [] = Unit {0}
IsHistory n (e ∷ []) = (e.id ≡ n) × IsSound e
IsHistory n (e ∷ f ∷ rest) =
    (e.id ≡ n) × (IsSound e × ((is_some e.outcome ≡ true) × IsHistory (suc n) (f ∷ rest)))

unfoldable pub last_open : List InputRecord → Bool
last_open [] = false
last_open (e ∷ []) = not (is_some e.outcome)
last_open (e ∷ f ∷ rest) = last_open (f ∷ rest)

abbrev pub FitsStatus : TaskStatus → Bool → Type 0
FitsStatus working b = b ≡ false
FitsStatus input_required b = b ≡ true
FitsStatus completed b = Unit {0}
FitsStatus failed b = Unit {0}
FitsStatus cancelled b = Unit {0}

-- A record is valid when its requests are numbered from 1, sound, and settled but for the last;
-- when the last is open in status `input_required`; and when all are settled in status `working`.
pub record IsValid (r : TaskRecord) : Type 0 where
  pub history : IsHistory 1 r.inputs
  pub fits : FitsStatus r.status (last_open r.inputs)

of_not : (b : Bool) → not b ≡ false → b ≡ true
of_not true h = refl
of_not false h = cc

pub of_some : {A : Type 0} {a b : A} → some a ≡ some b → a ≡ b
of_some h = cc

pub history-append :
    (n : ℕ) (es : List InputRecord) (e : InputRecord)
    → IsHistory n es
    → last_open es ≡ false
    → e.id ≡ n + length es
    → IsSound e
    → IsHistory n (es ++ e ∷ [])
unfolding IsHistory last_open
history-append n [] e h l d s = (omega arith, s)
history-append n (a ∷ []) e h l d s = (h.0, (h.1, (of_not (is_some a.outcome) l, (omega arith, s))))
history-append n (a ∷ b ∷ rest) e h l d s =
    (h.0, (h.1.0, (h.1.1.0, history-append (suc n) (b ∷ rest) e h.1.1.1 l (omega arith) s)))

pub last_open-append :
    (es : List InputRecord) (e : InputRecord) → last_open (es ++ e ∷ []) ≡ not (is_some e.outcome)
unfolding last_open
last_open-append [] e = refl
last_open-append (a ∷ []) e = refl
last_open-append (a ∷ b ∷ rest) e = last_open-append (b ∷ rest) e

pub latest-IsSound :
    (n : ℕ) (es : List InputRecord) (e : InputRecord)
    → IsHistory n es
    → latest es ≡ some e
    → IsSound e
unfolding IsHistory latest
latest-IsSound n [] e h l = cc
latest-IsSound n (a ∷ []) e h l = subst IsSound (of_some l) h.1
latest-IsSound n (a ∷ b ∷ rest) e h l = latest-IsSound (suc n) (b ∷ rest) e h.1.1.1 l

pub settle_latest-IsHistory :
    (n : ℕ) (es : List InputRecord) (e f : InputRecord)
    → IsHistory n es
    → latest es ≡ some e
    → f.id ≡ e.id
    → IsSound f
    → IsHistory n (settle_latest es f)
unfolding IsHistory latest settle_latest
settle_latest-IsHistory n [] e f h l d s = cc
settle_latest-IsHistory n (a ∷ []) e f h l d s =
    subst (λ i. (i ≡ n) × IsSound f) (sym d)
      (subst (λ x. (x.id ≡ n) × IsSound f) (of_some l) (h.0, s))
settle_latest-IsHistory n (a ∷ b ∷ []) e f h l d s =
    (h.0, (h.1.0, (h.1.1.0, settle_latest-IsHistory (suc n) (b ∷ []) e f h.1.1.1 l d s)))
settle_latest-IsHistory n (a ∷ b ∷ c ∷ rest) e f h l d s =
    (h.0, (h.1.0, (h.1.1.0, settle_latest-IsHistory (suc n) (b ∷ c ∷ rest) e f h.1.1.1 l d s)))

pub last_open-settle_latest :
    (es : List InputRecord) (f : InputRecord)
    → last_open (settle_latest es f) ≡ not (is_some f.outcome)
unfolding last_open settle_latest
last_open-settle_latest [] f = refl
last_open-settle_latest (a ∷ []) f = refl
last_open-settle_latest (a ∷ b ∷ []) f = refl
last_open-settle_latest (a ∷ b ∷ c ∷ rest) f = last_open-settle_latest (b ∷ c ∷ rest) f
