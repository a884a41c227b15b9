-- ===== src/Retry/Tests.antt =====
-- A provider that is busy at first and then answers.
use mokei.Common.{ℕ, zero, suc, ◌/◌, ◌≤◌, ◌≡◌, refl, String, none, [], ◌∷◌, true, false, arith}
use mokei.Retry.{
  Started, rejects, opens, Stream, text_delta, other, done, ends, attempt, read_parts, to_stream,
  run, retry_delay, default_policy, unread, settle_attempt, after_failure, go_on,
}
use mokei.Retry.Attempts.{IsSound, run-IsSound}
use mokei.Retry.Delay.{asked_delay, retry_delay_le}

abbrev reply : Stream String
reply = record { parts = other "unsupported" ∷ text_delta "Hello" ∷ done ∷ []; ending = ends }

abbrev provider : ℕ → Started String
provider zero = rejects "busy"
provider (suc n) = opens reply

run-IsSound_example :
    IsSound provider
      (λ k. false)
      (λ k. false)
      (λ e k. true)
      2
      0
      (run provider (λ k. false) (λ k. false) (λ e k. true) 2 0)
run-IsSound_example = run-IsSound provider (λ k. false) (λ k. false) (λ e k. true) 2 0

evaluation : Unit {0}
unfolding attempt read_parts to_stream run settle_attempt after_failure go_on unread retry_delay
    default_policy
evaluation = tt

attempts_made : (run provider (λ k. false) (λ k. false) (λ e k. true) 2 0).attempts ≡ 2
unfolding evaluation
attempts_made = refl

abbrev half : ℕ → ℕ
half n = n / 2

half_le : (n : ℕ) → half n ≤ n
half_le n = omega arith

retry_delay_le_example :
    (retry_delay default_policy half 3 none ≤ default_policy.max_delay_ms)
    × (retry_delay default_policy half 3 none ≤ asked_delay default_policy 3 none)
retry_delay_le_example = retry_delay_le default_policy half 3 none half_le

third_delay : retry_delay default_policy half 3 none ≡ 1000
unfolding evaluation
third_delay = refl
