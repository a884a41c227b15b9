-- ===== src/Tasks/Changes/Detailed.antt =====
-- What `detailed`, packages/context-server/src/task-manager.ts, shows of a task that waits for input.
use mokei.Common.{
  ◌≡◌, ap, subst, String, Option, none, some, List, [], ◌∷◌, Bool, true, false, is_some, string_key,
  arith, ◌<◌, length,
}
use mokei.Common.OrderedMap.{OrderedMap}
use mokei.Tasks.Record.{
  TaskRecord, InputRecord, InputRequest, InputResponse, input_required, latest, open_input, open_as,
  needs_input,
}
use mokei.Tasks.Changes.{covers, unanswered, unanswered_of, input_requests, Action, apply_each}
use mokei.Tasks.Changes.History.{FitsOutcome, FitsStatus, IsValid, last_open, latest-IsSound}
use mokei.Tasks.Changes.Opened.{OpenIs, open_input-OpenIs}
use mokei.Tasks.Changes.Validity.{apply_each-IsValid}

-- Some request is unanswered where the answers do not cover the requests.
unanswered-covers :
    (requests : OrderedMap String InputRequest) (responses : OrderedMap String InputResponse)
    → covers requests responses ≡ false
    → 0 < length (unanswered requests responses)
unfolding unanswered covers
unanswered-covers [] responses h = cc
unanswered-covers ((key, request) ∷ rest) responses h =
    ground (arith, unanswered-covers rest responses)

open-found :
    (es : List InputRecord) (b : Bool)
    → last_open es ≡ true
    → b ≡ true
    → is_some (open_as b (latest es)) ≡ true
unfolding last_open open_as latest
open-found [] b l h = cc
open-found (e ∷ []) b l h = ground arith
open-found (e ∷ f ∷ rest) b l h = open-found (f ∷ rest) b l h

found-unanswered :
    (r : TaskRecord) (o : Option InputRecord)
    → IsValid r
    → OpenIs r o
    → is_some o ≡ true
    → 0 < length (unanswered_of o)
unfolding unanswered_of
found-unanswered r none v p h = cc
found-unanswered r (some e) v p h =
    let s = latest-IsSound 1 r.inputs e v.history p.latest_is in
    unanswered-covers e.requests e.responses
      (subst (λ x. FitsOutcome x (covers e.requests e.responses)) p.unsettled s.fits)

-- A task that starts valid and is then changed in any way, and that is then in status
-- `input_required`, shows its client at least one request to answer.
pub input_requests_left :
    (actions : List Action) (r : TaskRecord)
    → IsValid r
    → (apply_each actions r).status ≡ input_required
    → 0 < length (input_requests (apply_each actions r))
unfolding input_requests open_input
input_requests_left actions r v h =
    let s = apply_each actions r in
    let w : IsValid s = apply_each-IsValid actions r v in
    found-unanswered s (open_input s) w (open_input-OpenIs s) (
      open-found s.inputs (needs_input s.status)
        (subst (λ x. FitsStatus x (last_open s.inputs)) h w.fits) (ap needs_input h))
