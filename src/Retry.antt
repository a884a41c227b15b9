-- ===== src/Retry.antt =====
-- packages/model-provider/src/retry.ts: `retryDelay` and `retryStreamChat`. A provider's answer to each attempt is
-- a parameter, as are its errors, the policy's `shouldRetry` and the random source.
pub mod Attempts
pub mod Delay
mod Tests
use mokei.Common.{
  ℕ, zero, suc, ◌+◌, ◌-◌, ◌*◌, ◌^◌, min, String, Option, none, some, List, [], ◌∷◌, ◌++◌, Bool,
  true, false, if◌then◌else◌, not, ◌&&◌, ◌||◌, leb,
}

pub data Part (E : Type 0) : Type 0 where
  text_delta : String → Part E
  reasoning_delta : String → Part E
  tool_call : String → Part E
  done : Part E
  error : E → Part E
  other : String → Part E

-- How a stream goes on after its parts: it ends, or reading it throws.
pub data Ending (E : Type 0) : Type 0 where
  ends : Ending E
  breaks : E → Ending E

pub record Stream (E : Type 0) : Type 0 where
  pub parts : List (Part E)
  pub ending : Ending E

-- What `start` gives: a request that rejects, or one that resolves with a stream.
pub data Started (E : Type 0) : Type 0 where
  rejects : E → Started E
  opens : Stream E → Started E

pub record Policy : Type 0 where
  pub retries : ℕ
  pub base_delay_ms : ℕ
  pub max_delay_ms : ℕ

unfoldable pub default_policy : Policy
default_policy = record { retries = 2; base_delay_ms = 500; max_delay_ms = 30000 }

-- `Math.floor(random() * ceiling)` for a ceiling.
abbrev pub Random : Type 0
Random = ℕ → ℕ

-- `retryDelay`, given the `retryAfterMs` of the error.
unfoldable pub retry_delay : Policy → Random → (attempt : ℕ) → (retry_after : Option ℕ) → ℕ
retry_delay policy random attempt (some ms) = min policy.max_delay_ms ms
retry_delay policy random attempt none =
    random (min policy.max_delay_ms (policy.base_delay_ms * 2 ^ (attempt - 1)))

module _ {E : Type 0} where
  unfoldable pub is_output_part : Part E → Bool
  is_output_part (text_delta s) = true
  is_output_part (reasoning_delta s) = true
  is_output_part (tool_call s) = true
  is_output_part done = false
  is_output_part (error e) = false
  is_output_part (other s) = false

-- `Attempt`: the parts read so far, newest first, the reader of the rest, and the failure.
pub record Attempt (E : Type 0) : Type 0 where
  pub buffered : List (Part E)
  pub reader : Option (Stream E)
  pub failure : Option E

module _ {E : Type 0} where
  -- The loop of `attempt`.
  unfoldable pub read_parts : List (Part E) → List (Part E) → Ending E → Attempt E
  read_parts buffered [] ends = record { buffered = buffered; reader = none; failure = none }
  read_parts buffered [] (breaks e) = record { buffered = []; reader = none; failure = some e }
  read_parts buffered (error e ∷ rest) ending = record {
    buffered = error e ∷ buffered;
    reader = some (record { parts = rest; ending = ending });
    failure = some e;
  }
  read_parts buffered (text_delta s ∷ rest) ending = record {
    buffered = text_delta s ∷ buffered;
    reader = some (record { parts = rest; ending = ending });
    failure = none;
  }
  read_parts buffered (reasoning_delta s ∷ rest) ending = record {
    buffered = reasoning_delta s ∷ buffered;
    reader = some (record { parts = rest; ending = ending });
    failure = none;
  }
  read_parts buffered (tool_call s ∷ rest) ending = record {
    buffered = tool_call s ∷ buffered;
    reader = some (record { parts = rest; ending = ending });
    failure = none;
  }
  read_parts buffered (done ∷ rest) ending = record {
    buffered = done ∷ buffered;
    reader = some (record { parts = rest; ending = ending });
    failure = none;
  }
  read_parts buffered (other s ∷ rest) ending = read_parts (other s ∷ buffered) rest ending

  unfoldable pub attempt : Started E → Attempt E
  unfolding read_parts
  attempt (rejects e) = record { buffered = []; reader = none; failure = some e }
  attempt (opens s) = read_parts [] s.parts s.ending

  unfoldable pub unread : Option (Stream E) → List (Part E)
  unread none = []
  unread (some s) = s.parts

  oldest_first : List (Part E) → List (Part E) → List (Part E)
  oldest_first [] rest = rest
  oldest_first (p ∷ buffered) rest = oldest_first buffered (p ∷ rest)

  -- The parts that the stream of `toStream` gives its consumer.
  unfoldable pub to_stream : Attempt E → List (Part E)
  unfolding oldest_first unread
  to_stream a = oldest_first a.buffered (unread a.reader)

pub data Answer (E : Type 0) : Type 0 where
  streams : Attempt E → Answer E
  throws : E → Answer E
  aborts : Answer E

-- A finished request: its answer, and how many attempts were started.
pub record Finished (E : Type 0) : Type 0 where
  pub answer : Answer E
  pub attempts : ℕ

module _ {E : Type 0} where
  -- A failure that is not retried: as a part, or as a rejection.
  surface_as : Attempt E → E → List (Part E) → Answer E
  surface_as a e [] = throws e
  surface_as a e (p ∷ ps) = streams a

  surfaces : Attempt E → E → Answer E
  unfolding surface_as
  surfaces a e = surface_as a e a.buffered

  finish : ℕ → Answer E → Finished E
  finish retry answer = record { answer = answer; attempts = suc retry }

-- `is_aborted` is whether the signal has aborted when an attempt has failed, and `aborts_wait` whether
-- it aborts in the wait that follows.
module _ {E : Type 0} (start : ℕ → Started E) (is_aborted aborts_wait : ℕ → Bool)
    (should_retry : E → ℕ → Bool) where
  unfoldable pub go_on : ℕ → Attempt E → E → Option (Finished E) → Finished E
  unfolding finish surfaces
  go_on retry a e none = finish retry (surfaces a e)
  go_on retry a e (some later) = if aborts_wait retry then finish retry aborts else later

  -- Where the attempt number `retry` has failed: `later` is the loop from the next one on, or none
  -- when no retry is left.
  unfoldable pub after_failure : ℕ → Attempt E → E → Option (Finished E) → Finished E
  unfolding finish surfaces go_on
  after_failure retry a e later =
      if is_aborted retry
      then finish retry aborts
      else if should_retry e (suc retry)
      then go_on retry a e later
      else finish retry (surfaces a e)

  unfoldable pub settle_attempt : ℕ → Attempt E → Option E → Option (Finished E) → Finished E
  unfolding after_failure finish
  settle_attempt retry a none later = finish retry (streams a)
  settle_attempt retry a (some e) later = after_failure retry a e later

  -- The loop of `run`, from the attempt number `retry`, with `left` retries left.
  unfoldable pub run : (left : ℕ) → (retry : ℕ) → Finished E
  unfolding settle_attempt attempt
  run zero retry = settle_attempt retry (attempt (start retry)) (attempt (start retry)).failure none
  run (suc left) retry =
      settle_attempt retry (attempt (start retry)) (attempt (start retry)).failure
        (some (run left (suc retry)))
