-- ===== src/Subscriptions/Writer/Bounded.antt =====
-- At no time does a writer hold more frames than its limit, or write two of them at once.
use mokei.Common.{
  ℕ, suc, ◌+◌, ◌-◌, ◌≤◌, ◌≡◌, refl, sym, subst, ap, ◌∙◌, Option, Option-cases, inl, inr, ◌||◌, none,
  some, List, [], ◌∷◌, Bool, true, false, arith, length, length-append, is_some, leb, if◌then◌else◌,
}
use mokei.Common.Json.{Json}
use mokei.Subscriptions.Writer.{
  SubscriptionWriter, Effect, rejects, QueuedFrame, WriterError, Event, enqueues, aborts, resolved,
  rejected, new_writer, write_next, drain, reject_queued, settle_idle, announce, fail, refuse,
  accept, enqueue_after, enqueue, abort, write_resolved, write_rejected, step, run, backpressure,
  resolves,
}

abbrev in_flight_count : Option QueuedFrame → ℕ
in_flight_count none = 0
in_flight_count (some f) = 1

-- After a failure nothing waits; without one, nothing waits unless a write is outstanding.
abbrev WaitsForWrite : Option WriterError → Option QueuedFrame → List QueuedFrame → Type 0
WaitsForWrite none (some f) q = Unit {0}
WaitsForWrite failure flight q = q ≡ []

pub record IsValid (w : SubscriptionWriter) : Type 0 where
  pub pending_is : w.pending ≡ length w.queue + in_flight_count w.in_flight
  pub bounded : w.pending ≤ w.max_pending_frames
  pub draining_is : w.draining ≡ is_some w.in_flight
  pub waits : WaitsForWrite w.failure w.in_flight w.queue
  pub idle_only : w.idle_settled ≡ true → w.pending ≡ 0
  pub idle_if : is_some w.failure ≡ false → w.pending ≡ 0 → w.idle_settled ≡ true

unfoldable pub rejections : List QueuedFrame → WriterError → List Effect → List Effect
rejections [] error t = t
rejections (f ∷ q) error t = rejections q error (rejects f.number error ∷ t)

pub reject_queued_lem :
    (q : List QueuedFrame) (error : WriterError) (w : SubscriptionWriter)
    → reject_queued q error w
      ≡ record w { pending = w.pending - length q; trace = rejections q error w.trace }
unfolding reject_queued rejections
reject_queued_lem [] error w = ap (λ n. record w { pending = n }) (omega arith)
reject_queued_lem (f ∷ q) error w =
    reject_queued_lem q error
      (record w { pending = w.pending - 1; trace = rejects f.number error ∷ w.trace })
    ∙ ap
        (λ n. record w {
          pending = n;
          trace = rejections q error (rejects f.number error ∷ w.trace);
        })
        (omega arith)

-- What a failure leaves of a writer that had none.
unfoldable pub failed : WriterError → Bool → SubscriptionWriter → SubscriptionWriter
unfolding settle_idle announce rejections
failed error notify w = settle_idle (
    announce notify error (record w {
      pending = w.pending - length w.queue;
      trace = rejections w.queue error w.trace;
      failure = some error;
      queue = [];
    }))

fail-none :
    (error : WriterError) (notify : Bool) (w : SubscriptionWriter)
    → w.failure ≡ none
    → fail error notify w ≡ failed error notify w
unfolding fail failed
fail-none error notify w h =
    ap
      (λ f.
        if is_some f
        then w
        else settle_idle (
            announce notify error
              (reject_queued w.queue error (record w { failure = some error; queue = [] }))))
      h
    ∙ ap (λ v. settle_idle (announce notify error v))
        (reject_queued_lem w.queue error (record w { failure = some error; queue = [] }))

fail-some :
    (error e : WriterError) (notify : Bool) (w : SubscriptionWriter)
    → w.failure ≡ some e
    → fail error notify w ≡ w
unfolding fail
fail-some error e notify w h =
    ap
      (λ f.
        if is_some f
        then w
        else settle_idle (
            announce notify error
              (reject_queued w.queue error (record w { failure = some error; queue = [] }))))
      h

-- What holds of a failed writer and of one that had failed before holds after `#fail`.
pub fail_by :
    (P : SubscriptionWriter → Type 0) (error : WriterError) (notify : Bool) (w : SubscriptionWriter)
    → (w.failure ≡ none → P (failed error notify w))
    → ((e : WriterError) → w.failure ≡ some e → P w)
    → P (fail error notify w)
fail_by P error notify w fresh done = elim (Option-cases w.failure) [
  | inl h ↦ subst P (sym (fail-none error notify w h)) (fresh h)
  | inr (e, h) ↦ subst P (sym (fail-some error e notify w h)) (done e h)
]

-- What holds also while an operation is under way.
record Counts (w : SubscriptionWriter) : Type 0 where
  pending_is : w.pending ≡ length w.queue + in_flight_count w.in_flight
  bounded : w.pending ≤ w.max_pending_frames
  draining_is : w.draining ≡ is_some w.in_flight
  idle_only : w.idle_settled ≡ true → w.pending ≡ 0

failed-IsValid :
    (error : WriterError) (notify : Bool) (w : SubscriptionWriter)
    → Counts w
    → IsValid (failed error notify w)
unfolding failed announce settle_idle
failed-IsValid error true w v = ground arith
failed-IsValid error false w v = ground arith

fail-IsValid :
    (error : WriterError) (notify : Bool) (w : SubscriptionWriter)
    → Counts w
    → (is_some w.failure ≡ true → IsValid w)
    → IsValid (fail error notify w)
fail-IsValid error notify w v k =
    fail_by IsValid error notify w (λ h. failed-IsValid error notify w v) (λ e h. k (ap is_some h))

drain-IsValid :
    (w : SubscriptionWriter)
    → Counts w
    → (w.pending ≡ 0 → w.idle_settled ≡ true)
    → (is_some w.failure ≡ true → w.queue ≡ [])
    → IsValid (drain w)
unfolding drain write_next
drain-IsValid w v i k = go w.queue refl
  where
    go :
        (q : List QueuedFrame)
        → w.queue ≡ q
        → IsValid (if w.draining || is_some w.failure then w else write_next q w)
    go [] h = ground arith
    go (f ∷ q) h = ground arith

refuse-IsValid : (e : WriterError) (w : SubscriptionWriter) → IsValid w → IsValid (refuse e w)
unfolding refuse
refuse-IsValid e w v = ground arith

accept-IsValid :
    (n : Json) (w : SubscriptionWriter)
    → w.failure ≡ none
    → IsValid w
    → suc w.pending ≤ w.max_pending_frames
    → IsValid (accept n w)
unfolding accept
accept-IsValid n w h v l =
    drain-IsValid _
      (record {
        pending_is =
            ground
              (arith, length-append w.queue (record { number = w.issued; notification = n } ∷ []));
        bounded = l;
        draining_is = v.draining_is;
        idle_only = ground arith;
      })
      (ground arith) (ground arith)

enqueue-IsValid :
    (n : Json) (f : Option WriterError) (w : SubscriptionWriter)
    → w.failure ≡ f
    → IsValid w
    → IsValid (enqueue_after f n w)
unfolding enqueue_after
enqueue-IsValid n (some e) w h v = refuse-IsValid e w v
enqueue-IsValid n none w h v = go (leb w.max_pending_frames w.pending) refl
  where
    go :
        (b : Bool)
        → leb w.max_pending_frames w.pending ≡ b
        → IsValid (
            if b
            then refuse
                (backpressure w.max_pending_frames)
                (fail (backpressure w.max_pending_frames) true w)
            else accept n w)
    go true l = refuse-IsValid _ _ (fail-IsValid _ true w (ground arith) (λ q. v))
    go false l = accept-IsValid n w h v (ground arith)

resolved-IsValid :
    (f : Option QueuedFrame) (w : SubscriptionWriter)
    → w.in_flight ≡ f
    → IsValid w
    → IsValid (write_resolved f w)
unfolding write_resolved settle_idle
resolved-IsValid none w h v = v
resolved-IsValid (some f) w h v =
    let after : SubscriptionWriter = settle_idle (record w {
      draining = false;
      in_flight = none;
      pending = w.pending - 1;
      trace = resolves f.number ∷ w.trace;
    }) in
    drain-IsValid after (ground arith) (ground arith) (ground arith)

rejected-IsValid :
    (f : Option QueuedFrame) (e : WriterError) (w : SubscriptionWriter)
    → w.in_flight ≡ f
    → IsValid w
    → IsValid (write_rejected f e w)
unfolding write_rejected
rejected-IsValid none e w h v = v
rejected-IsValid (some f) e w h v =
    fail-IsValid e true
      (record w {
        draining = false;
        in_flight = none;
        pending = w.pending - 1;
        trace = rejects f.number e ∷ w.trace;
      })
      (ground arith) (λ q. ground arith)

pub step-IsValid : (w : SubscriptionWriter) (e : Event) → IsValid w → IsValid (step w e)
unfolding step enqueue abort
step-IsValid w (enqueues n) v = enqueue-IsValid n w.failure w refl v
step-IsValid w (aborts r) v = fail-IsValid r false w (ground arith) (λ h. v)
step-IsValid w resolved v = resolved-IsValid w.in_flight w refl v
step-IsValid w (rejected r) v = rejected-IsValid w.in_flight r w refl v

pub run-IsValid : (w : SubscriptionWriter) (es : List Event) → IsValid w → IsValid (run w es)
unfolding run
run-IsValid w [] v = v
run-IsValid w (e ∷ es) v = run-IsValid (step w e) es (step-IsValid w e v)

pub new_writer-IsValid : (max_pending_frames : ℕ) → IsValid (new_writer max_pending_frames)
unfolding new_writer
new_writer-IsValid n = ground arith

-- Over any history, a new writer has at most as many pending frames as its limit allows: the queued
-- ones and the one in flight, if any; nothing is queued after a failure, nor while no write is
-- outstanding; and `flush()` is resolved only if nothing is pending, and always then while the
-- writer has not failed.
pub run_from_new-IsValid :
    (max_pending_frames : ℕ) (es : List Event) → IsValid (run (new_writer max_pending_frames) es)
run_from_new-IsValid m es = run-IsValid (new_writer m) es (new_writer-IsValid m)
