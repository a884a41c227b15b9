-- ===== src/Subscriptions/Writer/Ordered.antt =====
-- A writer writes its frames in the order in which they were given to it.
use mokei.Common.{
  ℕ, suc, ◌-◌, ◌≡◌, refl, subst, ap, sym, ◌∙◌, Option, none, some, List, [], ◌∷◌, ◌++◌, Bool, true,
  false, ◌||◌, ◌==◌, arith, is_some, leb, if◌then◌else◌, append_assoc, append-nil,
}
use mokei.Common.Json.{Json}
use mokei.Subscriptions.Writer.{
  SubscriptionWriter, QueuedFrame, Effect, writes, WriterError, backpressure, Event, resolves,
  rejects, enqueues, aborts, resolved, rejected, new_writer, drain, write_next, fail, settle_idle,
  announce, accept, refuse, enqueue_after, enqueue, abort, write_resolved, write_rejected, step,
  run,
}
use mokei.Subscriptions.Writer.Bounded.{fail_by, failed, rejections}

-- The notifications that were handed to the sink, the first first.
abbrev pub written : List Effect → List Json
written [] = []
written (writes f ∷ t) = written t ++ f.notification ∷ []
written (e ∷ t) = written t

-- The notifications of the calls of `enqueue`.
abbrev pub submitted : List Event → List Json
submitted [] = []
submitted (enqueues n ∷ es) = n ∷ submitted es
submitted (e ∷ es) = submitted es

abbrev pub notifications : List QueuedFrame → List Json
notifications [] = []
notifications (f ∷ q) = f.notification ∷ notifications q

-- What was written is the beginning of what was submitted, and what waits is the rest, as long as
-- the writer has not failed.
pub record InOrder (w : SubscriptionWriter) (given : List Json) : Type 0 where
  pub rest : List Json
  pub split : written w.trace ++ rest ≡ given
  pub waiting : is_some w.failure ≡ false → rest ≡ notifications w.queue

written-rejections :
    (q : List QueuedFrame) (e : WriterError) (t : List Effect)
    → written (rejections q e t) ≡ written t
unfolding rejections
written-rejections [] e t = refl
written-rejections (f ∷ q) e t = written-rejections q e (rejects f.number e ∷ t)

failed-InOrder :
    (e : WriterError) (b : Bool) (w : SubscriptionWriter) (g : List Json)
    → InOrder w g
    → InOrder (failed e b w) g
unfolding failed settle_idle announce
failed-InOrder e true w g o = record {
  rest = o.rest;
  split = ground (arith, written-rejections w.queue e w.trace, o.split);
  waiting = ground arith;
}
failed-InOrder e false w g o = record {
  rest = o.rest;
  split = ground (arith, written-rejections w.queue e w.trace, o.split);
  waiting = ground arith;
}

fail-InOrder :
    (e : WriterError) (b : Bool) (w : SubscriptionWriter) (g : List Json)
    → InOrder w g
    → InOrder (fail e b w) g
fail-InOrder e b w g o = fail_by (λ v. InOrder v g) e b w (λ h. failed-InOrder e b w g o) (λ f h. o)

written-InOrder :
    (w : SubscriptionWriter) (g : List Json) (f : QueuedFrame) (q : List QueuedFrame)
    → w.queue ≡ f ∷ q
    → is_some w.failure ≡ false
    → InOrder w g
    → InOrder
        (record w { queue = q; draining = true; in_flight = some f; trace = writes f ∷ w.trace })
        g
written-InOrder w g f q h n o = record {
  rest = notifications q;
  split =
      append_assoc (written w.trace) (f.notification ∷ []) (notifications q)
      ∙ ap (λ r. written w.trace ++ r) (sym (o.waiting n ∙ ap notifications h))
      ∙ o.split;
  waiting = λ k. refl;
}

drain-InOrder : (w : SubscriptionWriter) (g : List Json) → InOrder w g → InOrder (drain w) g
unfolding drain write_next
drain-InOrder w g o = go w.queue refl (w.draining || is_some w.failure) refl
  where
    go :
        (q : List QueuedFrame)
        → w.queue ≡ q
        → (b : Bool) → w.draining || is_some w.failure ≡ b
        → InOrder (if b then w else write_next q w) g
    go q h true k = o
    go [] h false k = o
    go (f ∷ q) h false k = written-InOrder w g f q h (ground (arith, k)) o

-- After a failure what was submitted need not wait.
InOrder-more :
    (w : SubscriptionWriter) (g : List Json) (n : Json)
    → is_some w.failure ≡ true
    → InOrder w g
    → InOrder w (g ++ n ∷ [])
InOrder-more w g n h o = record {
  rest = o.rest ++ n ∷ [];
  split = sym (append_assoc (written w.trace) o.rest (n ∷ [])) ∙ ap (λ r. r ++ n ∷ []) o.split;
  waiting = λ k. ground (arith, h, k);
}

notifications-append :
    (q : List QueuedFrame) (f : QueuedFrame)
    → notifications (q ++ f ∷ []) ≡ notifications q ++ f.notification ∷ []
notifications-append [] f = refl
notifications-append (x ∷ q) f = ap (λ r. x.notification ∷ r) (notifications-append q f)

fail-failed :
    (e : WriterError) (b : Bool) (w : SubscriptionWriter) → is_some (fail e b w).failure ≡ true
unfolding failed settle_idle announce
fail-failed e b w =
    fail_by (λ v. is_some v.failure ≡ true) e b w (λ h. direct b) (λ f h. ap is_some h)
  where
    direct : (b : Bool) → is_some (failed e b w).failure ≡ true
    direct true = ground arith
    direct false = ground arith

accept-InOrder :
    (n : Json) (w : SubscriptionWriter) (g : List Json)
    → is_some w.failure ≡ false
    → InOrder w g
    → InOrder (accept n w) (g ++ n ∷ [])
unfolding accept
accept-InOrder n w g h o =
    let f : QueuedFrame = record { number = w.issued; notification = n } in
    let u : SubscriptionWriter = record w {
      idle_settled = if w.pending == 0 then false else w.idle_settled;
      pending = suc w.pending;
      queue = w.queue ++ f ∷ [];
      issued = suc w.issued;
    } in
    drain-InOrder u (g ++ n ∷ []) (record {
      rest = o.rest ++ n ∷ [];
      split = sym (append_assoc (written w.trace) o.rest (n ∷ [])) ∙ ap (λ r. r ++ n ∷ []) o.split;
      waiting = λ k. ap (λ r. r ++ n ∷ []) (o.waiting h) ∙ sym (notifications-append w.queue f);
    })

enqueue-InOrder :
    (n : Json) (e : Option WriterError) (w : SubscriptionWriter) (g : List Json)
    → w.failure ≡ e
    → InOrder w g
    → InOrder (enqueue_after e n w) (g ++ n ∷ [])
unfolding enqueue_after refuse
enqueue-InOrder n (some e) w g h o =
    let r = InOrder-more w g n (ap is_some h) o in
    record { rest = r.rest; split = r.split; waiting = r.waiting }
enqueue-InOrder n none w g h o = go (leb w.max_pending_frames w.pending)
  where
    overflow : WriterError
    overflow = backpressure w.max_pending_frames

    after : InOrder (fail overflow true w) (g ++ n ∷ [])
    after =
        InOrder-more (fail overflow true w) g n (fail-failed overflow true w)
          (fail-InOrder overflow true w g o)

    go :
        (b : Bool)
        → InOrder (if b then refuse overflow (fail overflow true w) else accept n w) (g ++ n ∷ [])
    go true = record { rest = after.rest; split = after.split; waiting = after.waiting }
    go false = accept-InOrder n w g (ap is_some h) o

append_nothing : (w : SubscriptionWriter) (g : List Json) → InOrder w g → InOrder w (g ++ [])
append_nothing w g o = subst (InOrder w) (sym (append-nil g)) o

resolved-InOrder :
    (f : Option QueuedFrame) (w : SubscriptionWriter) (g : List Json)
    → InOrder w g
    → InOrder (write_resolved f w) g
unfolding write_resolved settle_idle
resolved-InOrder none w g o = o
resolved-InOrder (some f) w g o =
    drain-InOrder
      (settle_idle (record w {
        draining = false;
        in_flight = none;
        pending = w.pending - 1;
        trace = resolves f.number ∷ w.trace;
      }))
      g (ground (arith, o))

rejected-InOrder :
    (f : Option QueuedFrame) (e : WriterError) (w : SubscriptionWriter) (g : List Json)
    → InOrder w g
    → InOrder (write_rejected f e w) g
unfolding write_rejected
rejected-InOrder none e w g o = o
rejected-InOrder (some f) e w g o =
    fail-InOrder e true
      (record w {
        draining = false;
        in_flight = none;
        pending = w.pending - 1;
        trace = rejects f.number e ∷ w.trace;
      })
      g (record { rest = o.rest; split = o.split; waiting = o.waiting })

step-InOrder :
    (w : SubscriptionWriter) (e : Event) (g : List Json)
    → InOrder w g
    → InOrder (step w e) (g ++ submitted (e ∷ []))
unfolding step enqueue abort
step-InOrder w (enqueues n) g o = enqueue-InOrder n w.failure w g refl o
step-InOrder w (aborts r) g o = append_nothing (fail r false w) g (fail-InOrder r false w g o)
step-InOrder w resolved g o =
    append_nothing (write_resolved w.in_flight w) g (resolved-InOrder w.in_flight w g o)
step-InOrder w (rejected r) g o =
    append_nothing (write_rejected w.in_flight r w) g (rejected-InOrder w.in_flight r w g o)

submitted-split :
    (e : Event) (es : List Event) → submitted (e ∷ []) ++ submitted es ≡ submitted (e ∷ es)
submitted-split (enqueues n) es = refl
submitted-split (aborts n) es = refl
submitted-split resolved es = refl
submitted-split (rejected n) es = refl

pub run-InOrder :
    (w : SubscriptionWriter) (es : List Event) (g : List Json)
    → InOrder w g
    → InOrder (run w es) (g ++ submitted es)
unfolding run
run-InOrder w [] g o = append_nothing w g o
run-InOrder w (e ∷ es) g o =
    subst (InOrder (run (step w e) es))
      (append_assoc g (submitted (e ∷ [])) (submitted es) ∙ ap (λ r. g ++ r) (submitted-split e es))
      (run-InOrder (step w e) es (g ++ submitted (e ∷ [])) (step-InOrder w e g o))

pub run_from_new-InOrder :
    (m : ℕ) (es : List Event) → InOrder (run (new_writer m) es) (submitted es)
unfolding new_writer
run_from_new-InOrder m es =
    run-InOrder (new_writer m) es [] (record { rest = []; split = refl; waiting = λ h. refl })

-- Over any history of a new writer, what it wrote to the sink is the beginning of what was given to
-- `enqueue`, in that order; and as long as the writer has not failed, what it has not written yet is
-- exactly what waits in its queue.
pub written_in_order :
    (max_pending_frames : ℕ) (es : List Event)
    → let w = run (new_writer max_pending_frames) es in
      (rest : List Json) × (written w.trace ++ rest ≡ submitted es)
      × (is_some w.failure ≡ false → rest ≡ notifications w.queue)
written_in_order m es = let o = run_from_new-InOrder m es in (o.rest, o.split, o.waiting)
