-- ===== src/Inference/CircuitBreaker/Laws.antt =====
-- Single operations of the circuit breaker.
use ai_inference_project.Common.{ℕ, ◌+◌, ◌≤◌, ◌<◌, ◌≡◌, ◌↔◌, ◌⊎◌, true, false, arith}
use ai_inference_project.Inference.CircuitBreaker.{
  CircuitBreaker, CircuitBreakerPolicy, closed, opened, half_open, new_breaker, allow_request,
  record_success, record_failure, reset,
}

-- A closed circuit has fewer failures in a row than the threshold, and a half-open one has not let
-- more probes through than the policy allows.
pub record IsValid (b : CircuitBreaker) : Type 0 where
  pub below_threshold : b.state ≡ closed → b.failure_count < b.failure_threshold
  pub probes_bounded : b.state ≡ half_open → b.half_open_probes ≤ b.half_open_max_probes

pub new_breaker-IsValid :
    (p : CircuitBreakerPolicy) → 0 < p.failure_threshold → IsValid (new_breaker p)
unfolding new_breaker
new_breaker-IsValid p h = record { below_threshold = λ _. h; probes_bounded = λ e. cc }

module _ (b : CircuitBreaker) (positive : 0 < b.failure_threshold) (v : IsValid b) where
  pub allow_request-IsValid : (now : ℕ) → IsValid (allow_request now b).0
  unfolding allow_request
  allow_request-IsValid now = record {
    below_threshold = λ e. ground (arith, v.below_threshold);
    probes_bounded = λ e. ground (arith, v.probes_bounded);
  }

  pub record_success-IsValid : IsValid (record_success b).0
  unfolding record_success
  record_success-IsValid = record {
    below_threshold = λ e. ground (arith, v.below_threshold);
    probes_bounded = λ e. ground (arith, v.probes_bounded);
  }

  pub record_failure-IsValid : (now : ℕ) → IsValid (record_failure now b).0
  unfolding record_failure
  record_failure-IsValid now = record {
    below_threshold = λ e. ground (arith, v.below_threshold);
    probes_bounded = λ e. ground (arith, v.probes_bounded);
  }

  pub reset-IsValid : IsValid (reset b).0
  unfolding reset
  reset-IsValid = record { below_threshold = λ e. ground arith; probes_bounded = λ e. ground arith }

-- A request is let through exactly when the circuit is closed, or half-open with a probe left, or
-- open for at least the recovery timeout while the policy allows a probe.
pub allow_request_lem :
    (now : ℕ) (b : CircuitBreaker)
    → ((allow_request now b).2 ≡ true) ↔ (
        (b.state ≡ closed)
        ⊎ ((b.state ≡ half_open) × (b.half_open_probes < b.half_open_max_probes))
        ⊎ ((b.state ≡ opened)
            × (b.last_failure_time + b.recovery_timeout ≤ now)
            × (0 < b.half_open_max_probes)))
unfolding allow_request
allow_request_lem now b = (λ h. ground arith, λ h. ground arith)

-- A probe that fails opens the circuit again, and until the recovery timeout has passed since that
-- failure no request is let through.
pub allow_request-record_failure :
    (b : CircuitBreaker) (failed now : ℕ)
    → b.state ≡ half_open
    → now < failed + b.recovery_timeout
    → ((record_failure failed b).0.state ≡ opened)
      × ((allow_request now (record_failure failed b).0).2 ≡ false)
unfolding allow_request record_failure
allow_request-record_failure b failed now h early = (ground arith, ground arith)

-- A probe that succeeds closes the circuit with its counters cleared, and the next request is let
-- through, whenever it comes.
pub allow_request-record_success :
    (b : CircuitBreaker) (now : ℕ)
    → b.state ≡ half_open
    → ((record_success b).0 ≡ record b { state = closed; failure_count = 0; half_open_probes = 0 })
      × ((allow_request now (record_success b).0).2 ≡ true)
unfolding allow_request record_success
allow_request-record_success b now h = (ground arith, ground arith)
