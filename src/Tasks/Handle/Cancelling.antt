-- ===== src/Tasks/Handle/Cancelling.antt =====
-- When the work of a task cancels it, packages/context-server/src/task-manager.ts.
use mokei.Common.{
  suc, ◌≡◌, refl, sym, ap, ◌∙◌, String, some, List, Bool, true, false, if◌then◌else◌, string_key,
  arith,
}
use mokei.Common.OrderedMap.{get, set, HasDistinctKeys, get-set}
use mokei.Tasks.Record.{TaskRecord, cancelled, is_terminal}
use mokei.Tasks.Changes.{unchanged, patched, change, cancels, applied, unless_terminal}
use mokei.Tasks.Store.{TaskStore}
use mokei.Tasks.Manager.{Round, Mutated, gone, kept, wrote, throws, store_fails, retries, mutate}
use mokei.Tasks.Manager.Atomic.{IsAtomic}
use mokei.Tasks.Manager.Commits.{HasForeignCalls, mutate-IsAtomic}
use mokei.Tasks.Handle.{unless_aborted, has_written, cancel_from_handle}

-- A patch of the cancelling change, made of a record at work.
record IsCancelling (r : TaskRecord) (patch : TaskRecord → TaskRecord) : Type 0 where
  cancelled_is : (patch r).status ≡ cancelled
  at_work : is_terminal r ≡ false

cancels-IsCancelling :
    (b c : Bool) (r : TaskRecord) (patch : TaskRecord → TaskRecord)
    → is_terminal r ≡ c
    → (if b
        then unchanged
        else if c
        then unchanged
        else patched (λ q. record q { status = cancelled }))
      ≡ patched patch
    → IsCancelling r patch
unfolding applied
cancels-IsCancelling true c r patch t h = record { cancelled_is = cc; at_work = cc }
cancels-IsCancelling false true r patch t h = record { cancelled_is = cc; at_work = cc }
cancels-IsCancelling false false r patch t h = record {
  cancelled_is = sym (ap (λ x. (applied r x).status) h);
  at_work = t;
}

-- The record under `id` in the store `s` is cancelled, and was at work in the store before the write.
pub record IsCancelledBy (id : String) (s : TaskStore) : Type 0 where
  pub was : TaskStore
  pub before : TaskRecord
  pub after : TaskRecord
  pub found : get was id ≡ some before
  pub at_work : is_terminal before ≡ false
  pub stored : get s id ≡ some after
  pub next_revision : after.revision ≡ suc before.revision
  pub cancelled_is : after.status ≡ cancelled

written-IsCancelledBy :
    (during : Bool) (id : String) (records s : TaskStore) (m : Mutated)
    → IsAtomic id (unless_aborted during cancels) records s m
    → has_written m ≡ true
    → IsCancelledBy id s
unfolding has_written unless_aborted change unless_terminal
written-IsCancelledBy during id records s gone a h = ground arith
written-IsCancelledBy during id records s (kept r) a h = ground arith
written-IsCancelledBy during id records s (throws e) a h = ground arith
written-IsCancelledBy during id records s (store_fails e) a h = ground arith
written-IsCancelledBy during id records s retries a h = ground arith
written-IsCancelledBy during id records s (wrote q) (was, (p, c)) h =
    let k = cancels-IsCancelling during (is_terminal c.before) c.before c.patch refl c.decided in
    record {
      was = was;
      before = c.before;
      after = q;
      found = c.found;
      at_work = k.at_work;
      stored = ap (λ t. get t id) c.stored ∙ get_set_same was id q;
      next_revision = ap (λ x. x.revision) c.result;
      cancelled_is = ap (λ x. x.status) c.result ∙ k.cancelled_is;
    }
  where
    get_set_same : (t : TaskStore) (key : String) (r : TaskRecord) → get (set t key r) key ≡ some r
    get_set_same t key r = ground (arith, get-set t key key r)

-- When a task's work cancels it and is told that it has won, and nobody else creates a task of this
-- id, then the task was at work when the write was made, and the store that is left holds it as
-- cancelled, in the next revision.
pub cancel_from_handle-IsCancelledBy :
    (during : Bool) (rounds : List Round) (id : String) (records : TaskStore)
    → HasDistinctKeys records
    → HasForeignCalls id rounds
    → (cancel_from_handle false during rounds id records).1 ≡ true
    → IsCancelledBy id (cancel_from_handle false during rounds id records).0
unfolding cancel_from_handle
cancel_from_handle-IsCancelledBy during rounds id records d f h =
    written-IsCancelledBy during id records
      (mutate rounds id (unless_aborted during cancels) records).0
      (mutate rounds id (unless_aborted during cancels) records).1
      (mutate-IsAtomic rounds id (unless_aborted during cancels) records d f) h
