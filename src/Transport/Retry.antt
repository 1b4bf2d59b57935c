-- ===== src/Transport/Retry.antt =====
-- src/transport/retry.rs: how long to wait between retries, and whether to retry. Durations are
-- numbers of nanoseconds, of which `saturating_*` keeps at most the largest duration.
use acmex.Base.{
  ℕ, ◌+◌, ◌*◌, ◌/◌, ◌≤◌, ◌<◌, ◌≡◌, ◌↔◌, ◌⊎◌, min, Bool, true, false, ◌&&◌, leb, if◌then◌else◌,
  arith,
}

-- `multiplier: f64`, behind what it is used for: the delay in milliseconds, from the initial one and
-- the attempt, as the float product is truncated.
pub data RetryStrategy : Type 0 where
  exponential_backoff : (initial_delay max_delay : ℕ) (scaled : ℕ → ℕ → ℕ) → RetryStrategy
  linear_backoff : (initial_delay increment : ℕ) → RetryStrategy
  fixed_delay : ℕ → RetryStrategy
  no_retry : RetryStrategy

-- `Duration::MAX`: 2^64 - 1 seconds and 999999999 nanoseconds
abbrev max_duration : ℕ
max_duration = 18446744073709551615999999999

unfoldable pub delay : RetryStrategy → ℕ → ℕ
delay (exponential_backoff initial_delay max_delay scaled) attempt =
    min (1000000 * scaled (initial_delay / 1000000) attempt) max_delay
delay (linear_backoff initial_delay increment) attempt =
    min (initial_delay + min (increment * attempt) max_duration) max_duration
delay (fixed_delay d) attempt = d
delay no_retry attempt = 0

pub record RetryPolicy : Type 0 where
  pub max_retries : ℕ
  pub strategy : RetryStrategy
  pub retry_on_client_error : Bool
  pub retry_on_server_error : Bool

unfoldable pub should_retry : RetryPolicy → ℕ → ℕ → Bool
should_retry policy status_code attempt =
    if leb policy.max_retries attempt
    then false
    else if leb 400 status_code && leb status_code 499
    then policy.retry_on_client_error
    else if leb 500 status_code && leb status_code 599
    then policy.retry_on_server_error
    else false

-- A request is retried exactly when attempts are left and its status is a client or a server error
-- of which the policy retries the kind.
should_retry_iff :
    (policy : RetryPolicy) (status attempt : ℕ)
    → (should_retry policy status attempt ≡ true) ↔ (
        (attempt < policy.max_retries)
        × (((400 ≤ status) × (status < 500) × (policy.retry_on_client_error ≡ true))
            ⊎ ((500 ≤ status) × (status < 600) × (policy.retry_on_server_error ≡ true))))
unfolding should_retry
should_retry_iff policy status attempt = (λ h. ground arith, λ h. ground arith)
