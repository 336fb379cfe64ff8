-- ===== src/Inference/CircuitBreaker/Runs.antt =====
-- Histories of a circuit breaker: its operations in any order, at any readings of the clock.
use ai_inference_project.Common.{
  ℕ, ◌+◌, ◌≤◌, ◌<◌, ◌≡◌, inl, inr, refl, ap, ◌∙◌, false, Bool-cases, List, [], ◌∷◌, map, arith,
  length, leb, if◌then◌else◌,
}
use ai_inference_project.Inference.CircuitBreaker.{
  CircuitBreaker, CircuitBreakerPolicy, closed, opened, half_open, new_breaker, allow_request,
  record_success, record_failure, reset,
}
use ai_inference_project.Inference.CircuitBreaker.Laws.{
  IsValid, new_breaker-IsValid, allow_request-IsValid, record_success-IsValid,
  record_failure-IsValid, reset-IsValid,
}

pub data Call : Type 0 where
  allows : ℕ → Call
  succeeds : Call
  fails : ℕ → Call
  resets : Call

pub step : Call → CircuitBreaker → CircuitBreaker
step (allows now) b = (allow_request now b).0
step succeeds b = (record_success b).0
step (fails now) b = (record_failure now b).0
step resets b = (reset b).0

pub run : List Call → CircuitBreaker → CircuitBreaker
run [] b = b
run (c ∷ calls) b = run calls (step c b)

step-policy : (c : Call) (b : CircuitBreaker) → (step c b).policy ≡ b.policy
unfolding step allow_request record_success record_failure reset
step-policy (allows now) b = ground arith
step-policy succeeds b = ground arith
step-policy (fails now) b = ground arith
step-policy resets b = ground arith

step-IsValid :
    (c : Call) (b : CircuitBreaker) → 0 < b.failure_threshold → IsValid b → IsValid (step c b)
unfolding step
step-IsValid (allows now) b h v = allow_request-IsValid b h v now
step-IsValid succeeds b h v = record_success-IsValid b h v
step-IsValid (fails now) b h v = record_failure-IsValid b h v now
step-IsValid resets b h v = reset-IsValid b h v

run_from-IsValid :
    (calls : List Call) (b : CircuitBreaker)
    → 0 < b.failure_threshold
    → IsValid b
    → IsValid (run calls b)
unfolding run
run_from-IsValid [] b h v = v
run_from-IsValid (c ∷ calls) b h v =
    run_from-IsValid calls (step c b) (rw (step-policy c b) h) (step-IsValid c b h v)

-- After any history of a new breaker with a positive threshold, a closed circuit has fewer failures
-- in a row than the threshold, and a half-open one has let through at most as many probes as the
-- policy allows.
pub run-IsValid :
    (p : CircuitBreakerPolicy) (calls : List Call)
    → 0 < p.failure_threshold
    → IsValid (run calls (new_breaker p))
run-IsValid p calls h =
    run_from-IsValid calls (new_breaker p) (unfold new_breaker in h) (new_breaker-IsValid p h)

opened_stays :
    (times : List ℕ) (b : CircuitBreaker)
    → b.state ≡ opened
    → (run (map fails times) b).state ≡ opened
unfolding run step record_failure
opened_stays [] b h = h
opened_stays (t ∷ times) b h = opened_stays times (step (fails t) b) (ground arith)

-- Failures in a row from a closed circuit leave it closed exactly while their number, with those
-- counted before, stays below the threshold; from then on it is open.
pub run-fails :
    (times : List ℕ) (b : CircuitBreaker)
    → b.state ≡ closed
    → b.failure_count < b.failure_threshold
    → (run (map fails times) b).state
      ≡ (if leb b.failure_threshold (b.failure_count + length times) then opened else closed)
unfolding run step record_failure
run-fails [] b h low = ground arith
run-fails (t ∷ times) b h low = elim (Bool-cases (leb b.failure_threshold (b.failure_count + 1))) [
  | inl over ↦ ground (arith, opened_stays times (step (fails t) b))
  | inr under ↦ ground (arith, run-fails times (step (fails t) b))
]

allow_request_full :
    (now : ℕ) (b : CircuitBreaker)
    → b.state ≡ half_open
    → b.half_open_max_probes ≤ b.half_open_probes
    → allow_request now b ≡ (b, [], false)
unfolding allow_request
allow_request_full now b h full = ground arith

run-allows_full :
    (times : List ℕ) (b : CircuitBreaker)
    → b.state ≡ half_open
    → b.half_open_max_probes ≤ b.half_open_probes
    → run (map allows times) b ≡ b
unfolding run step
run-allows_full [] b h full = refl
run-allows_full (t ∷ times) b h full =
    let stays : step (allows t) b ≡ b = ap (λ r. r.0) (allow_request_full t b h full) in
    ap (run (map allows times)) stays ∙ run-allows_full times b h full

-- A half-open circuit whose probes are all taken refuses every request, however often and however
-- late it is asked, and stays as it is: the passing of time alone never moves it.
pub run-allows_stuck :
    (times : List ℕ) (now : ℕ) (b : CircuitBreaker)
    → b.state ≡ half_open
    → b.half_open_max_probes ≤ b.half_open_probes
    → allow_request now (run (map allows times) b) ≡ (b, [], false)
run-allows_stuck times now b h full =
    rw (run-allows_full times b h full) (allow_request_full now b h full)
