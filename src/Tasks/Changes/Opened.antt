-- ===== src/Tasks/Changes/Opened.antt =====
-- The open request of a record, `openInput` of packages/context-server/src/task-manager.ts.
use mokei.Common.{
  ◌≡◌, refl, Option, none, some, List, [], ◌∷◌, Bool, true, false, not, is_some, string_key,
  if◌then◌else◌,
}
use mokei.Tasks.Record.{
  TaskRecord, InputRecord, InputOutcome, TaskStatus, working, input_required, completed, failed,
  cancelled, latest, open_input, open_as, needs_input, is_terminal_status,
}
use mokei.Tasks.Changes.History.{FitsStatus, last_open}

-- What an open request is: the latest one, without an outcome, in status `input_required`.
pub record IsOpen (r : TaskRecord) (e : InputRecord) : Type 0 where
  pub latest_is : latest r.inputs ≡ some e
  pub unsettled : e.outcome ≡ none
  pub status_is : r.status ≡ input_required

abbrev pub OpenIs : TaskRecord → Option InputRecord → Type 0
OpenIs r none = Unit {0}
OpenIs r (some e) = IsOpen r e

unsettled_of : (o : Option InputOutcome) → not (is_some o) ≡ true → o ≡ none
unsettled_of none h = refl
unsettled_of (some x) h = cc

if_none : (b : Bool) (a : InputRecord) → is_some (if b then some a else none) ≡ false → b ≡ false
if_none true a h = cc
if_none false a h = refl

open_if :
    (r : TaskRecord) (a : InputRecord) (b : Bool)
    → latest r.inputs ≡ some a
    → r.status ≡ input_required
    → not (is_some a.outcome) ≡ b
    → OpenIs r (if b then some a else none)
open_if r a false l s h = tt
open_if r a true l s h = record {
  latest_is = l;
  unsettled = unsettled_of a.outcome h;
  status_is = s;
}

open_as-OpenIs :
    (r : TaskRecord) (s : TaskStatus) (o : Option InputRecord)
    → r.status ≡ s
    → latest r.inputs ≡ o
    → OpenIs r (open_as (needs_input s) o)
unfolding open_as
open_as-OpenIs r s none e l = tt
open_as-OpenIs r working (some a) e l = tt
open_as-OpenIs r completed (some a) e l = tt
open_as-OpenIs r failed (some a) e l = tt
open_as-OpenIs r cancelled (some a) e l = tt
open_as-OpenIs r input_required (some a) e l = open_if r a (not (is_some a.outcome)) l e refl

pub open_input-OpenIs : (r : TaskRecord) → OpenIs r (open_input r)
unfolding open_input
open_input-OpenIs r = open_as-OpenIs r r.status (latest r.inputs) refl refl

-- Without an open request in a record at work, every request is settled.
pub none_open :
    (s : TaskStatus) (es : List InputRecord)
    → FitsStatus s (last_open es)
    → is_terminal_status s ≡ false
    → is_some (open_as (needs_input s) (latest es)) ≡ false
    → last_open es ≡ false
unfolding open_as latest last_open
none_open working es f t h = f
none_open completed es f t h = cc
none_open failed es f t h = cc
none_open cancelled es f t h = cc
none_open input_required [] f t h = refl
none_open input_required (e ∷ []) f t h = if_none (not (is_some e.outcome)) e h
none_open input_required (e ∷ g ∷ rest) f t h = none_open input_required (g ∷ rest) f t h
