-- ===== src/Tasks/Changes/Answering.antt =====
-- The change of `update` keeps the record of a task valid.
use mokei.Common.{
  ◌≡◌, refl, sym, subst, ap, String, Option, none, some, [], ◌∷◌, Bool, true, false, not, is_some,
  string_key, if◌then◌else◌,
}
use mokei.Common.OrderedMap.{OrderedMap}
use mokei.Tasks.Record.{TaskRecord, InputRecord, InputResponse, answered, working, settle_latest}
use mokei.Tasks.Changes.{
  Change, unchanged, patched, raises, Accepted, accepts, rejects, accept_each, covers, answer_as,
  answer_with,
}
use mokei.Tasks.Changes.History.{
  FitsOutcome, FitsStatus, IsSound, IsHistory, IsValid, last_open, latest-IsSound,
  settle_latest-IsHistory, last_open-settle_latest,
}
use mokei.Tasks.Changes.Opened.{IsOpen, OpenIs}
use mokei.Tasks.Changes.Accepting.{Asked, accept_each-Asked}

abbrev pub ValidAfter : TaskRecord → Change → Type 0
ValidAfter r unchanged = Unit {0}
ValidAfter r (patched patch) = IsValid (patch r)
ValidAfter r (raises e) = Unit {0}

pub if-ValidAfter :
    (r : TaskRecord) (b : Bool) (x y : Change)
    → ValidAfter r x
    → ValidAfter r y
    → ValidAfter r (if b then x else y)
if-ValidAfter r true x y p q = p
if-ValidAfter r false x y p q = q

-- The open request replaced by `f`.
pub settled-IsValid :
    (r s : TaskRecord) (e f : InputRecord)
    → IsValid r
    → IsOpen r e
    → f.id ≡ e.id
    → IsSound f
    → s.inputs ≡ settle_latest r.inputs f
    → FitsStatus s.status (not (is_some f.outcome))
    → IsValid s
settled-IsValid r s e f v o d sound i fits = record {
  history =
      subst (IsHistory 1) (sym i)
        (settle_latest-IsHistory 1 r.inputs e f v.history o.latest_is d sound);
  fits =
      subst (λ es. FitsStatus s.status (last_open es)) (sym i)
        (subst (FitsStatus s.status) (sym (last_open-settle_latest r.inputs f)) fits);
}

answer_if :
    (r : TaskRecord) (e : InputRecord) (m : OrderedMap String InputResponse) (b : Bool)
    → IsValid r
    → IsOpen r e
    → Asked e (accepts m)
    → covers e.requests m ≡ b
    → ValidAfter r (
        if b
        then patched (λ q. record q {
          status = working;
          inputs = settle_latest r.inputs (record e { responses = m; outcome = some answered });
        })
        else patched
            (λ q. record q { inputs = settle_latest r.inputs (record e { responses = m }) }))
answer_if r e m true v o a h =
    settled-IsValid r
      (record r {
        status = working;
        inputs = settle_latest r.inputs (record e { responses = m; outcome = some answered });
      })
      e (record e { responses = m; outcome = some answered }) v o refl
      (record { asked = a; fits = h }) refl refl
answer_if r e m false v o a h =
    settled-IsValid r (record r { inputs = settle_latest r.inputs (record e { responses = m }) }) e
      (record e { responses = m }) v o refl
      (record {
        asked = a;
        fits = subst (λ x. FitsOutcome x (covers e.requests m)) (sym o.unsettled) h;
      })
      refl
      (subst (λ s. FitsStatus s (not (is_some e.outcome))) (sym o.status_is)
        (ap (λ x. not (is_some x)) o.unsettled))

answer_with-ValidAfter :
    (r : TaskRecord) (e : InputRecord) (a : Accepted)
    → IsValid r
    → IsOpen r e
    → Asked e a
    → ValidAfter r (answer_with r e a)
unfolding answer_with
answer_with-ValidAfter r e (rejects x) v o a = tt
answer_with-ValidAfter r e (accepts m) v o a = answer_if r e m (covers e.requests m) v o a refl

pub answer_as-ValidAfter :
    (responses : OrderedMap String InputResponse) (o : Option InputRecord) (r : TaskRecord)
    → IsValid r
    → OpenIs r o
    → ValidAfter r (answer_as responses o r)
unfolding answer_as
answer_as-ValidAfter [] o r v p = tt
answer_as-ValidAfter ((key, response) ∷ rest) none r v p = tt
answer_as-ValidAfter ((key, response) ∷ rest) (some e) r v p =
    answer_with-ValidAfter r e (accept_each e ((key, response) ∷ rest) (accepts e.responses)) v p (
      accept_each-Asked e ((key, response) ∷ rest) (accepts e.responses)
        (latest-IsSound 1 r.inputs e v.history p.latest_is).asked)
