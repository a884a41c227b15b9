-- ===== src/Subscriptions/Writer/Settled.antt =====
-- Every frame given to a writer is answered once; and what `flush()` waits for.
use mokei.Common.{
  ℕ, suc, ◌+◌, ◌-◌, ◌≡◌, refl, ◌∙◌, Option, none, some, List, [], ◌∷◌, ◌++◌, Bool, true, false,
  ◌||◌, arith, is_some, leb, if◌then◌else◌, ite, dec_lt, ◌==◌, ℕ_discrete,
}
use mokei.Common.Json.{Json}
use mokei.Subscriptions.Writer.{
  SubscriptionWriter, QueuedFrame, Effect, resolves, rejects, WriterError, backpressure, Event,
  enqueues, aborts, resolved, rejected, new_writer, write_next, drain, settle_idle, announce, fail,
  refuse, accept, enqueue_after, enqueue, abort, write_resolved, write_rejected, step, run,
}
use mokei.Subscriptions.Writer.Bounded.{fail_by, failed, rejections}

-- How often a promise was resolved or rejected.
abbrev pub settlements : ℕ → List Effect → ℕ
settlements n [] = 0
settlements n (resolves m ∷ t) = ite (ℕ_discrete m n) 1 0 + settlements n t
settlements n (rejects m e ∷ t) = ite (ℕ_discrete m n) 1 0 + settlements n t
settlements n (e ∷ t) = settlements n t

-- How often a promise is that of a frame in a list, or in flight.
abbrev pub among : ℕ → List QueuedFrame → ℕ
among n [] = 0
among n (f ∷ q) = ite (ℕ_discrete f.number n) 1 0 + among n q

abbrev pub flying : ℕ → Option QueuedFrame → ℕ
flying n none = 0
flying n (some f) = ite (ℕ_discrete f.number n) 1 0

abbrev pub total : ℕ → SubscriptionWriter → ℕ
total n w = among n w.queue + flying n w.in_flight + settlements n w.trace

among-append :
    (n : ℕ) (q : List QueuedFrame) (f : QueuedFrame)
    → among n (q ++ f ∷ []) ≡ among n q + ite (ℕ_discrete f.number n) 1 0
among-append n [] f = ground arith
among-append n (g ∷ q) f = ground (arith, among-append n q f)

settlements-rejections :
    (n : ℕ) (q : List QueuedFrame) (e : WriterError) (t : List Effect)
    → settlements n (rejections q e t) ≡ among n q + settlements n t
unfolding rejections
settlements-rejections n [] e t = omega arith
settlements-rejections n (f ∷ q) e t =
    settlements-rejections n q e (rejects f.number e ∷ t) ∙ omega arith

total-drain :
    (n : ℕ) (w : SubscriptionWriter)
    → w.draining ≡ is_some w.in_flight
    → total n (drain w) ≡ total n w
unfolding drain write_next
total-drain n w d = go w.queue refl
  where
    go :
        (q : List QueuedFrame)
        → w.queue ≡ q
        → total n (if w.draining || is_some w.failure then w else write_next q w) ≡ total n w
    go [] h = ground arith
    go (f ∷ q) h = ground arith

record Counted (w : SubscriptionWriter) : Type 0 where
  draining_is : w.draining ≡ is_some w.in_flight
  balance : (n : ℕ) → total n w ≡ ite (dec_lt n w.issued) 1 0

-- A step that issues no promise.
record Settles (w v : SubscriptionWriter) : Type 0 where
  draining_is : v.draining ≡ is_some v.in_flight
  issued_is : v.issued ≡ w.issued
  totals : (n : ℕ) → total n v ≡ total n w

failed-Settles :
    (e : WriterError) (b : Bool) (w : SubscriptionWriter)
    → w.draining ≡ is_some w.in_flight
    → Settles w (failed e b w)
unfolding failed announce settle_idle
failed-Settles e true w d = record {
  draining_is = ground arith;
  issued_is = ground arith;
  totals = λ n. ground (arith, settlements-rejections n w.queue e w.trace);
}
failed-Settles e false w d = record {
  draining_is = ground arith;
  issued_is = ground arith;
  totals = λ n. ground (arith, settlements-rejections n w.queue e w.trace);
}

fail-Settles :
    (e : WriterError) (b : Bool) (w : SubscriptionWriter)
    → w.draining ≡ is_some w.in_flight
    → Settles w (fail e b w)
fail-Settles e b w d =
    fail_by (Settles w) e b w (λ h. failed-Settles e b w d)
      (λ f h. record { draining_is = d; issued_is = refl; totals = λ n. refl })

drain-Settles : (w : SubscriptionWriter) → w.draining ≡ is_some w.in_flight → Settles w (drain w)
unfolding drain write_next
drain-Settles w d = go w.queue refl
  where
    go :
        (q : List QueuedFrame)
        → w.queue ≡ q
        → Settles w (if w.draining || is_some w.failure then w else write_next q w)
    go [] h = ground arith
    go (f ∷ q) h = record {
      draining_is = ground arith;
      issued_is = ground arith;
      totals = λ n. ground arith;
    }

Counted-Settles :
    (w v : SubscriptionWriter)
    → Settles w v
    → ((n : ℕ) → total n w ≡ ite (dec_lt n w.issued) 1 0)
    → Counted v
Counted-Settles w v s b = record {
  draining_is = s.draining_is;
  balance = λ n. ground (arith, s.totals n, b n, s.issued_is);
}

refuse-Counted : (e : WriterError) (w : SubscriptionWriter) → Counted w → Counted (refuse e w)
unfolding refuse
refuse-Counted e w v = record {
  draining_is = v.draining_is;
  balance = λ n. ground (arith, v.balance n);
}

accept-Counted : (n : Json) (w : SubscriptionWriter) → Counted w → Counted (accept n w)
unfolding accept
accept-Counted n w v =
    let f : QueuedFrame = record { number = w.issued; notification = n } in
    let u : SubscriptionWriter = record w {
      idle_settled = if w.pending == 0 then false else w.idle_settled;
      pending = suc w.pending;
      queue = w.queue ++ f ∷ [];
      issued = suc w.issued;
    } in
    Counted-Settles u (drain u) (drain-Settles u v.draining_is)
      (λ m. ground (arith, among-append m w.queue f, v.balance m))

fail-Counted :
    (e : WriterError) (b : Bool) (w : SubscriptionWriter) → Counted w → Counted (fail e b w)
fail-Counted e b w v = Counted-Settles w (fail e b w) (fail-Settles e b w v.draining_is) v.balance

enqueue-Counted :
    (n : Json) (f : Option WriterError) (w : SubscriptionWriter)
    → Counted w
    → Counted (enqueue_after f n w)
unfolding enqueue_after
enqueue-Counted n (some e) w v = refuse-Counted e w v
enqueue-Counted n none w v = go (leb w.max_pending_frames w.pending)
  where
    go :
        (b : Bool)
        → Counted (
            if b
            then refuse
                (backpressure w.max_pending_frames)
                (fail (backpressure w.max_pending_frames) true w)
            else accept n w)
    go true =
        refuse-Counted (backpressure w.max_pending_frames)
          (fail (backpressure w.max_pending_frames) true w)
          (fail-Counted (backpressure w.max_pending_frames) true w v)
    go false = accept-Counted n w v

resolved-Counted :
    (f : Option QueuedFrame) (w : SubscriptionWriter)
    → w.in_flight ≡ f
    → Counted w
    → Counted (write_resolved f w)
unfolding write_resolved settle_idle
resolved-Counted none w h v = v
resolved-Counted (some f) w h v =
    let after : SubscriptionWriter = settle_idle (record w {
      draining = false;
      in_flight = none;
      pending = w.pending - 1;
      trace = resolves f.number ∷ w.trace;
    }) in
    Counted-Settles after (drain after) (drain-Settles after (ground arith))
      (λ n. ground (arith, v.balance n))

rejected-Counted :
    (f : Option QueuedFrame) (e : WriterError) (w : SubscriptionWriter)
    → w.in_flight ≡ f
    → Counted w
    → Counted (write_rejected f e w)
unfolding write_rejected
rejected-Counted none e w h v = v
rejected-Counted (some f) e w h v =
    let after : SubscriptionWriter = record w {
      draining = false;
      in_flight = none;
      pending = w.pending - 1;
      trace = rejects f.number e ∷ w.trace;
    } in
    fail-Counted e true after
      (record { draining_is = refl; balance = λ n. ground (arith, v.balance n) })

step-Counted : (w : SubscriptionWriter) (e : Event) → Counted w → Counted (step w e)
unfolding step enqueue abort
step-Counted w (enqueues n) v = enqueue-Counted n w.failure w v
step-Counted w (aborts r) v = fail-Counted r false w v
step-Counted w resolved v = resolved-Counted w.in_flight w refl v
step-Counted w (rejected r) v = rejected-Counted w.in_flight r w refl v

run-Counted : (w : SubscriptionWriter) (es : List Event) → Counted w → Counted (run w es)
unfolding run
run-Counted w [] v = v
run-Counted w (e ∷ es) v = run-Counted (step w e) es (step-Counted w e v)

new_writer-Counted : (m : ℕ) → Counted (new_writer m)
unfolding new_writer
new_writer-Counted m = record { draining_is = refl; balance = λ n. ground arith }

-- Over any history of a new writer, each promise that `enqueue` returned is settled once, or it is
-- not settled and its frame is queued or in flight, once; and no other promise is settled.
pub promises_settled_once :
    (max_pending_frames : ℕ) (es : List Event) (n : ℕ)
    → let w = run (new_writer max_pending_frames) es in
      among n w.queue + flying n w.in_flight + settlements n w.trace ≡ ite (dec_lt n w.issued) 1 0
promises_settled_once m es n = (run-Counted (new_writer m) es (new_writer-Counted m)).balance n
