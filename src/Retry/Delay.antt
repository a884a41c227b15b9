-- ===== src/Retry/Delay.antt =====
-- The waits of packages/model-provider/src/retry.ts are bounded.
use mokei.Common.{ℕ, ◌-◌, ◌*◌, ◌^◌, ◌≤◌, min, Option, none, some, arith}
use mokei.Retry.{Policy, Random, retry_delay}

-- A bound on a wait: the cap, and where the provider asks for some time, that time, else the backoff.
unfoldable pub asked_delay : Policy → (attempt : ℕ) → Option ℕ → ℕ
asked_delay policy attempt (some ms) = ms
asked_delay policy attempt none = policy.base_delay_ms * 2 ^ (attempt - 1)

-- With a random source that stays below what it is given, no wait is longer than the cap, none that
-- a provider asked for is longer than it asked, and none other is longer than the backoff, which
-- doubles from attempt to attempt.
pub retry_delay_le :
    (policy : Policy) (random : Random) (attempt : ℕ) (retry_after : Option ℕ)
    → ((ceiling : ℕ) → random ceiling ≤ ceiling)
    → (retry_delay policy random attempt retry_after ≤ policy.max_delay_ms)
      × (retry_delay policy random attempt retry_after ≤ asked_delay policy attempt retry_after)
unfolding retry_delay asked_delay
retry_delay_le policy random attempt (some ms) h = omega arith
retry_delay_le policy random attempt none h =
    let b = h (min policy.max_delay_ms (policy.base_delay_ms * 2 ^ (attempt - 1))) in
    (omega arith, omega arith)
