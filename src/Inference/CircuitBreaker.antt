-- ===== src/Inference/CircuitBreaker.antt =====
-- inference/circuit_breaker.py. The reading of the clock is an argument, in the unit of
-- `recovery_timeout`, and an operation returns the metric events that it emits. A comparison of
-- `now - last_failure_time` with a limit is written as a sum, so that a clock that steps back
-- gives what the subtraction gives.
pub mod Laws
pub mod Runs
use ai_inference_project.Common.{
  ℕ, ◌+◌, String, Bool, true, false, List, [], ◌∷◌, ◌++◌, leb, ltb, if◌then◌else◌,
}
use ai_inference_project.Core.Metrics.{MetricEvent, circuit_breaker_transition}

pub record CircuitBreakerPolicy : Type 0 where
  pub failure_threshold : ℕ
  pub recovery_timeout : ℕ
  pub half_open_max_probes : ℕ

-- `CircuitState`; `opened` is the source's `OPEN`.
pub data CircuitState : Type 0 where
  closed opened half_open : CircuitState

pub record CircuitBreaker : Type 0 where
  pub policy : CircuitBreakerPolicy
  pub open policy use *
  pub state : CircuitState
  pub failure_count : ℕ
  pub last_failure_time : ℕ
  pub half_open_probes : ℕ

-- `CircuitState.value`
unfoldable pub state_value : CircuitState → String
state_value closed = "closed"
state_value opened = "open"
state_value half_open = "half_open"

-- `__init__`
unfoldable pub new_breaker : CircuitBreakerPolicy → CircuitBreaker
new_breaker policy = record {
  policy = policy;
  state = closed;
  failure_count = 0;
  last_failure_time = 0;
  half_open_probes = 0;
}

-- What `_transition` sets.
unfoldable pub enter : CircuitState → CircuitBreaker → CircuitBreaker
enter closed b = record b { state = closed; failure_count = 0; half_open_probes = 0 }
enter half_open b = record b { state = half_open; half_open_probes = 0 }
enter opened b = record b { state = opened }

-- `_transition`, with the event that it emits.
unfoldable pub transition : CircuitState → CircuitBreaker → CircuitBreaker × List MetricEvent
unfolding enter state_value
transition new_state b =
    let after = enter new_state b in
    (
      after,
      circuit_breaker_transition (state_value b.state) (state_value new_state) after.failure_count
          ∷ [],
    )

-- The property `state`: an open circuit turns half-open once the timeout has passed.
unfoldable pub refresh : ℕ → CircuitBreaker → CircuitBreaker × List MetricEvent
unfolding transition
refresh now b = elim b.state [
  | opened ↦
      if leb (b.last_failure_time + b.recovery_timeout) now then transition half_open b else (b, [])
  | _ ↦ (b, [])
]

-- The answer of `allow_request` in the state that `refresh` left.
unfoldable pub admit : CircuitBreaker → CircuitBreaker × Bool
admit b = elim b.state [
  | closed ↦ (b, true)
  | half_open ↦
      if ltb b.half_open_probes b.half_open_max_probes
      then (record b { half_open_probes = b.half_open_probes + 1 }, true)
      else (b, false)
  | opened ↦ (b, false)
]

unfoldable pub allow_request : ℕ → CircuitBreaker → CircuitBreaker × List MetricEvent × Bool
unfolding refresh admit
allow_request now b =
    let (current, events) = refresh now b in
    let (after, allowed) = admit current in (after, events, allowed)

unfoldable pub record_success : CircuitBreaker → CircuitBreaker × List MetricEvent
unfolding transition
record_success b = elim b.state [
  | half_open ↦
      let (after, events) = transition closed b in (record after { failure_count = 0 }, events)
  | _ ↦ (record b { failure_count = 0 }, [])
]

unfoldable pub record_failure : ℕ → CircuitBreaker → CircuitBreaker × List MetricEvent
unfolding transition
record_failure now b =
    let counted = record b { failure_count = b.failure_count + 1; last_failure_time = now } in
    elim b.state [
      | half_open ↦ transition opened counted
      | closed ↦
          if leb b.failure_threshold (b.failure_count + 1)
          then transition opened counted
          else (counted, [])
      | opened ↦ (counted, [])
    ]

unfoldable pub reset : CircuitBreaker → CircuitBreaker × List MetricEvent
unfolding transition
reset b = transition closed b
