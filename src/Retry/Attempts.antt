-- ===== src/Retry/Attempts.antt =====
-- What `retryStreamChat`, packages/model-provider/src/retry.ts, does over all of its attempts.
use mokei.Common.{
  ℕ, zero, suc, ◌+◌, ◌<◌, ◌≤◌, ◌≡◌, refl, sym, subst, ◌⊎◌, inl, inr, Option, none, some, List, [],
  ◌∷◌, Bool, true, false, if◌then◌else◌, ◌||◌, arith, dec_lt,
}
use mokei.Retry.{
  Part, text_delta, reasoning_delta, tool_call, done, error, other, Ending, ends, breaks, Stream,
  Started, rejects, opens, is_output_part, Attempt, read_parts, attempt, unread, to_stream,
  oldest_first, Answer, streams, throws, aborts, Finished, finish, surfaces, surface_as, go_on,
  after_failure, settle_attempt, run,
}

module _ {E : Type 0} where
  unfoldable pub has_output : List (Part E) → Bool
  unfolding is_output_part
  has_output [] = false
  has_output (p ∷ ps) = is_output_part p || has_output ps

  abbrev FailsQuietly : Attempt E → Type 0
  FailsQuietly a = (e : E) → a.failure ≡ some e → has_output a.buffered ≡ false

  -- An attempt fails only before its first output part.
  read_parts-FailsQuietly :
      (buffered ps : List (Part E)) (ending : Ending E)
      → has_output buffered ≡ false
      → FailsQuietly (read_parts buffered ps ending)
  unfolding read_parts has_output is_output_part
  read_parts-FailsQuietly buffered [] ends q e h = cc
  read_parts-FailsQuietly buffered [] (breaks x) q e h = refl
  read_parts-FailsQuietly buffered (error x ∷ rest) ending q e h = q
  read_parts-FailsQuietly buffered (text_delta s ∷ rest) ending q e h = cc
  read_parts-FailsQuietly buffered (reasoning_delta s ∷ rest) ending q e h = cc
  read_parts-FailsQuietly buffered (tool_call s ∷ rest) ending q e h = cc
  read_parts-FailsQuietly buffered (done ∷ rest) ending q e h = cc
  read_parts-FailsQuietly buffered (other s ∷ rest) ending q e h =
      read_parts-FailsQuietly (other s ∷ buffered) rest ending q e h

  attempt-FailsQuietly : (s : Started E) → FailsQuietly (attempt s)
  unfolding attempt has_output
  attempt-FailsQuietly (rejects x) e h = refl
  attempt-FailsQuietly (opens s) e h = read_parts-FailsQuietly [] s.parts s.ending refl e h

  to_stream-read_parts :
      (buffered ps : List (Part E)) (ending : Ending E)
      → (read_parts buffered ps ending).failure ≡ none
      → to_stream (read_parts buffered ps ending) ≡ oldest_first buffered ps
  unfolding read_parts to_stream unread oldest_first
  to_stream-read_parts buffered [] ends h = refl
  to_stream-read_parts buffered [] (breaks x) h = cc
  to_stream-read_parts buffered (error x ∷ rest) ending h = cc
  to_stream-read_parts buffered (text_delta s ∷ rest) ending h = refl
  to_stream-read_parts buffered (reasoning_delta s ∷ rest) ending h = refl
  to_stream-read_parts buffered (tool_call s ∷ rest) ending h = refl
  to_stream-read_parts buffered (done ∷ rest) ending h = refl
  to_stream-read_parts buffered (other s ∷ rest) ending h =
      to_stream-read_parts (other s ∷ buffered) rest ending h

  -- The stream of an attempt that has not failed gives its consumer every part that the provider
  -- sent, in order, those that were read while deciding included.
  pub to_stream-attempt :
      (s : Stream E) → (attempt (opens s)).failure ≡ none → to_stream (attempt (opens s)) ≡ s.parts
  unfolding attempt oldest_first
  to_stream-attempt s h = to_stream-read_parts [] s.parts s.ending h

module _ {E : Type 0} (start : ℕ → Started E) (is_aborted aborts_wait : ℕ → Bool)
    (should_retry : E → ℕ → Bool) where
  -- The attempt number `k` was retried: it had failed before any output, with an error that the
  -- policy retries, and the signal had not aborted then or in the wait.
  pub record IsRetried (k : ℕ) : Type 0 where
    pub reason : E
    pub failed : (attempt (start k)).failure ≡ some reason
    pub quiet : has_output (attempt (start k)).buffered ≡ false
    pub retryable : should_retry reason (suc k) ≡ true
    pub not_aborted : is_aborted k ≡ false
    pub not_in_wait : aborts_wait k ≡ false

  -- The answer is that of the attempt number `k`.
  abbrev pub AnswersWith : ℕ → Answer E → Type 0
  AnswersWith k (streams a) = a ≡ attempt (start k)
  AnswersWith k (throws e) = (attempt (start k)).failure ≡ some e
  AnswersWith k aborts = (is_aborted k ≡ true) ⊎ (aborts_wait k ≡ true)

  -- A request that went through the attempts from `retry` to `last`, with `left` retries left.
  pub record IsSound (left retry : ℕ) (f : Finished E) : Type 0 where
    pub last : ℕ
    pub attempts_are : f.attempts ≡ suc last
    pub started : retry ≤ last
    pub bounded : last ≤ retry + left
    pub retried : (k : ℕ) → retry ≤ k → k < last → IsRetried k
    pub answered : AnswersWith last f.answer

  finish-IsSound :
      (left retry : ℕ) (answer : Answer E)
      → AnswersWith retry answer
      → IsSound left retry (finish retry answer)
  unfolding finish
  finish-IsSound left retry answer h = record {
    last = retry;
    attempts_are = refl;
    started = omega arith;
    bounded = omega arith;
    retried = λ k l m. ground arith;
    answered = h;
  }

  later-IsSound :
      (left retry : ℕ) (f : Finished E)
      → IsRetried retry
      → IsSound left (suc retry) f
      → IsSound (suc left) retry f
  later-IsSound left retry f r s = record {
    last = s.last;
    attempts_are = s.attempts_are;
    started = omega arith;
    bounded = omega arith;
    retried = λ k l m. elim (dec_lt retry k) [
      | yes q ↦ s.retried k q m
      | no q ↦ subst IsRetried (omega arith) r
    ];
    answered = s.answered;
  }

  surfaces-AnswersWith :
      (retry : ℕ) (e : E)
      → (attempt (start retry)).failure ≡ some e
      → AnswersWith retry (surfaces (attempt (start retry)) e)
  unfolding surfaces
  surfaces-AnswersWith retry e h = surface_as-AnswersWith (attempt (start retry)).buffered
    where
      surface_as-AnswersWith :
          (ps : List (Part E)) → AnswersWith retry (surface_as (attempt (start retry)) e ps)
      surface_as-AnswersWith [] = h
      surface_as-AnswersWith (p ∷ ps) = refl

  -- What comes after the failure of the attempt number `retry`, if anything does.
  abbrev IsLater : ℕ → ℕ → Option (Finished E) → Type 0
  IsLater left retry none = Unit {0}
  IsLater left retry (some f) = (n : ℕ) × ((left ≡ suc n) × IsSound n (suc retry) f)

  go_on-IsSound :
      (left retry : ℕ) (e : E) (later : Option (Finished E))
      → (attempt (start retry)).failure ≡ some e
      → is_aborted retry ≡ false
      → should_retry e (suc retry) ≡ true
      → IsLater left retry later
      → IsSound left retry
          (go_on start is_aborted aborts_wait should_retry retry (attempt (start retry)) e later)
  unfolding go_on
  go_on-IsSound left retry e none h a r l =
      finish-IsSound left retry (surfaces (attempt (start retry)) e)
        (surfaces-AnswersWith retry e h)
  go_on-IsSound left retry e (some f) h a r (n, (q, s)) = by_wait (aborts_wait retry) refl
    where
      by_wait :
          (b : Bool)
          → aborts_wait retry ≡ b
          → IsSound left retry (if b then finish retry aborts else f)
      by_wait true w = finish-IsSound left retry aborts (inr w)
      by_wait false w =
          subst (λ m. IsSound m retry f) (sym q)
            (later-IsSound n retry f
              (record {
                reason = e;
                failed = h;
                quiet = attempt-FailsQuietly (start retry) e h;
                retryable = r;
                not_aborted = a;
                not_in_wait = w;
              })
              s)

  after_failure-IsSound :
      (left retry : ℕ) (e : E) (later : Option (Finished E))
      → (attempt (start retry)).failure ≡ some e
      → IsLater left retry later
      → IsSound left retry (
          after_failure start is_aborted aborts_wait should_retry retry
            (attempt (start retry))
            e
            later)
  unfolding after_failure
  after_failure-IsSound left retry e later h l =
      by_abort (is_aborted retry) (should_retry e (suc retry)) refl refl
    where
      by_abort :
          (b c : Bool)
          → is_aborted retry ≡ b
          → should_retry e (suc retry) ≡ c
          → IsSound left retry (
              if b
              then finish retry aborts
              else if c
              then go_on start is_aborted aborts_wait should_retry retry
                  (attempt (start retry))
                  e
                  later
              else finish retry (surfaces (attempt (start retry)) e))
      by_abort true c p q = finish-IsSound left retry aborts (inl p)
      by_abort false true p q = go_on-IsSound left retry e later h p q l
      by_abort false false p q =
          finish-IsSound left retry (surfaces (attempt (start retry)) e)
            (surfaces-AnswersWith retry e h)

  settle_attempt-IsSound :
      (left retry : ℕ) (o : Option E) (later : Option (Finished E))
      → (attempt (start retry)).failure ≡ o
      → IsLater left retry later
      → IsSound left retry (
          settle_attempt start is_aborted aborts_wait should_retry retry
            (attempt (start retry))
            o
            later)
  unfolding settle_attempt
  settle_attempt-IsSound left retry none later h l =
      finish-IsSound left retry (streams (attempt (start retry))) refl
  settle_attempt-IsSound left retry (some e) later h l =
      after_failure-IsSound left retry e later h l

  -- A request starts at most one attempt more than its retries. Each attempt but the last had failed
  -- before any output, with an error that the policy retries, and without an abort; the answer is
  -- the stream of the last attempt, its error, or an abort after it.
  pub run-IsSound :
      (left retry : ℕ)
      → IsSound left retry (run start is_aborted aborts_wait should_retry left retry)
  unfolding run
  run-IsSound zero retry =
      settle_attempt-IsSound zero retry (attempt (start retry)).failure none refl tt
  run-IsSound (suc left) retry =
      settle_attempt-IsSound (suc left) retry (attempt (start retry)).failure
        (some (run start is_aborted aborts_wait should_retry left (suc retry))) refl
        (left, (refl, run-IsSound left (suc retry)))
