-- ===== src/Subscriptions/Writer/Flushing.antt =====
-- What `flush()` waits for when a writer fails.
use mokei.Common.{
  ℕ, ◌-◌, ◌≡◌, refl, subst, sym, Option, none, some, List, [], ◌∷◌, Bool, true, false, arith,
  is_some,
}
use mokei.Common.Json.{Json}
use mokei.Subscriptions.Writer.{
  SubscriptionWriter, QueuedFrame, WriterError, Event, rejects, enqueues, aborts, resolved,
  rejected, new_writer, fail, refuse, enqueue_after, enqueue, abort, write_resolved, write_rejected,
  step, run,
}
use mokei.Subscriptions.Writer.Bounded.{IsValid, run_from_new-IsValid, fail_by}

-- A failed writer without an outstanding write, on which somebody waits.
record Stuck (w : SubscriptionWriter) : Type 0 where
  failed_is : is_some w.failure ≡ true
  flight_is : w.in_flight ≡ none
  waiting : w.idle_settled ≡ false

fail-Stuck : (e : WriterError) (b : Bool) (w : SubscriptionWriter) → Stuck w → Stuck (fail e b w)
fail-Stuck e b w s = fail_by Stuck e b w (λ h. ground (arith, s.failed_is, h)) (λ f h. s)

enqueue-Stuck :
    (f : Option WriterError) (n : Json) (w : SubscriptionWriter)
    → w.failure ≡ f
    → Stuck w
    → Stuck (enqueue_after f n w)
unfolding enqueue_after refuse
enqueue-Stuck (some e) n w h s = ground arith
enqueue-Stuck none n w h s = ground arith

step-Stuck : (w : SubscriptionWriter) (e : Event) → Stuck w → Stuck (step w e)
unfolding step enqueue abort write_resolved write_rejected
step-Stuck w (enqueues n) s = enqueue-Stuck w.failure n w refl s
step-Stuck w (aborts r) s = fail-Stuck r false w s
step-Stuck w resolved s = subst (λ f. Stuck (write_resolved f w)) (sym s.flight_is) s
step-Stuck w (rejected r) s = subst (λ f. Stuck (write_rejected f r w)) (sym s.flight_is) s

run-Stuck : (w : SubscriptionWriter) (es : List Event) → Stuck w → Stuck (run w es)
unfolding run
run-Stuck w [] s = s
run-Stuck w (e ∷ es) s = run-Stuck (step w e) es (step-Stuck w e s)

-- A failed writer whose outstanding write is rejected.
reject-Stuck :
    (w : SubscriptionWriter) (f : QueuedFrame) (first second : WriterError)
    → IsValid w
    → w.in_flight ≡ some f
    → w.failure ≡ some first
    → ((step w (rejected second)).pending ≡ 0) × Stuck (step w (rejected second))
unfolding step write_rejected
reject-Stuck w f first second v h k =
    subst (λ o. ((write_rejected o second w).pending ≡ 0) × Stuck (write_rejected o second w))
      (sym h)
      (fail_by (λ u. (u.pending ≡ 0) × Stuck u) second true landed (λ e. ground (arith, e, k))
        (λ e g. ground arith))
  where
    landed : SubscriptionWriter
    landed = record w {
      draining = false;
      in_flight = none;
      pending = w.pending - 1;
      trace = rejects f.number second ∷ w.trace;
    }

-- When a writer has failed while a write is outstanding, and this write is rejected as well, then
-- nothing is pending any more, and yet `flush()` is never resolved, whatever comes after.
pub flush_hangs :
    (max_pending_frames : ℕ) (before after : List Event) (f : QueuedFrame)
    (first second : WriterError)
    → (run (new_writer max_pending_frames) before).in_flight ≡ some f
    → (run (new_writer max_pending_frames) before).failure ≡ some first
    → let w = step (run (new_writer max_pending_frames) before) (rejected second) in
      (w.pending ≡ 0) × ((run w after).idle_settled ≡ false)
flush_hangs m before after f first second h k =
    let w = run (new_writer m) before in
    let (p, s) = reject-Stuck w f first second (run_from_new-IsValid m before) h k in
    (p, (run-Stuck (step w (rejected second)) after s).waiting)
