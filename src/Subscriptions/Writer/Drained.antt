-- ===== src/Subscriptions/Writer/Drained.antt =====
-- A writer whose writes succeed writes everything that it was given.
use mokei.Common.{
  ℕ, zero, suc, ◌-◌, ◌≡◌, refl, ap, sym, ◌∙◌, Option, none, some, List, [], ◌∷◌, ◌++◌, Bool, true,
  false, ◌||◌, arith, is_some, if◌then◌else◌, append-nil,
}
use mokei.Subscriptions.Writer.{
  SubscriptionWriter, QueuedFrame, Event, resolved, new_writer, drain, write_next, settle_idle,
  write_resolved, step, run, resolves,
}
use mokei.Subscriptions.Writer.Bounded.{IsValid, run_from_new-IsValid, run-IsValid, step-IsValid}
use mokei.Subscriptions.Writer.Ordered.{
  InOrder, run-InOrder, run_from_new-InOrder, written, submitted, notifications,
}

-- So many writes resolve, one after the other.
abbrev pub writes_resolve : ℕ → List Event
writes_resolve zero = []
writes_resolve (suc n) = resolved ∷ writes_resolve n

drain-pending :
    (w : SubscriptionWriter) → ((drain w).pending ≡ w.pending) × ((drain w).failure ≡ w.failure)
unfolding drain write_next
drain-pending w = go w.queue (w.draining || is_some w.failure)
  where
    go :
        (q : List QueuedFrame) (b : Bool)
        → let v = if b then w else write_next q w in
          (v.pending ≡ w.pending) × (v.failure ≡ w.failure)
    go q true = (refl, refl)
    go [] false = (refl, refl)
    go (f ∷ q) false = (refl, refl)

resolved-pending :
    (w : SubscriptionWriter)
    → IsValid w
    → w.failure ≡ none
    → ((step w resolved).pending ≡ w.pending - 1) × ((step w resolved).failure ≡ none)
unfolding step write_resolved settle_idle
resolved-pending w v h = go w.in_flight refl
  where
    go :
        (f : Option QueuedFrame)
        → w.in_flight ≡ f
        → ((write_resolved f w).pending ≡ w.pending - 1) × ((write_resolved f w).failure ≡ none)
    go none k = ground arith
    go (some f) k =
        let landed : SubscriptionWriter = record w {
          draining = false;
          in_flight = none;
          pending = w.pending - 1;
          trace = resolves f.number ∷ w.trace;
        } in
        ground (arith, drain-pending (settle_idle landed))

resolves-pending :
    (n : ℕ) (w : SubscriptionWriter)
    → IsValid w
    → w.failure ≡ none
    → n ≡ w.pending
    → ((run w (writes_resolve n)).pending ≡ 0) × ((run w (writes_resolve n)).failure ≡ none)
unfolding run
resolves-pending zero w v h e = (sym e, h)
resolves-pending (suc n) w v h e =
    let (p, f) = resolved-pending w v h in
    resolves-pending n (step w resolved) (step-IsValid w resolved v) f (ground (arith, e, p))

submitted-writes_resolve : (n : ℕ) → submitted (writes_resolve n) ≡ []
submitted-writes_resolve zero = refl
submitted-writes_resolve (suc n) = submitted-writes_resolve n

all_gone : (w : SubscriptionWriter) → IsValid w → w.pending ≡ 0 → w.queue ≡ []
all_gone w v h = go w.queue refl
  where
    go : (q : List QueuedFrame) → w.queue ≡ q → w.queue ≡ []
    go [] k = k
    go (f ∷ q) k = ground (arith, v.pending_is)

-- When a new writer has not failed after some history, and from there on as many writes succeed as
-- it has frames pending, then exactly the notifications that were given to `enqueue` are written,
-- in that order, and `flush()` is resolved.
pub all_written :
    (max_pending_frames : ℕ) (es : List Event)
    → (run (new_writer max_pending_frames) es).failure ≡ none
    → let w = run (new_writer max_pending_frames) es in
      let v = run w (writes_resolve w.pending) in
      (written v.trace ≡ submitted es) × (v.idle_settled ≡ true)
all_written m es h =
    let w = run (new_writer m) es in
    let v = run w (writes_resolve w.pending) in
    let valid : IsValid v = run-IsValid w (writes_resolve w.pending) (run_from_new-IsValid m es) in
    let (p, f) = resolves-pending w.pending w (run_from_new-IsValid m es) h refl in
    let o : InOrder v (submitted es ++ submitted (writes_resolve w.pending)) =
      run-InOrder w (writes_resolve w.pending) (submitted es) (run_from_new-InOrder m es) in
    (
      sym (append-nil (written v.trace))
          ∙ ap (λ r. written v.trace ++ r)
              (sym (o.waiting (ap is_some f) ∙ ap notifications (all_gone v valid p)))
          ∙ o.split
          ∙ ap (λ r. submitted es ++ r) (submitted-writes_resolve w.pending)
          ∙ append-nil (submitted es),
      valid.idle_if (ap is_some f) p,
    )
