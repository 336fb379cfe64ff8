-- ===== src/Core/Metrics.antt =====
-- core/metrics.py: the metric events of the platform, and the collector over an in-memory sink.
-- A constructor stands for an event type, with the event's fields as its arguments. The
-- timestamp of an event, the reading of the clock in `_now`, is not kept.
pub mod Prometheus
use ai_inference_project.Common.{ℕ, String, Bool, Option, List, [], ◌∷◌, ◌++◌}

pub data MetricEvent : Type 0 where
  request_accepted : (request_id model event_type : String) (estimated_tokens : ℕ) → MetricEvent
  request_rejected : (reason : String) → MetricEvent
  inference_started : (request_id model batch_id : String) → MetricEvent
  inference_completed : (request_id model : String) (duration_ms : ℕ) → MetricEvent
  inference_failed : (request_id model error : String) → MetricEvent
  batch_built : (batch_id model : String) (size total_tokens : ℕ) (reason : String) → MetricEvent
  scheduling_decision :
      (batch_id model : String) (scheduled : Bool) (device_id : Option String) (reason : String)
      → MetricEvent
  reconciliation_pass : (stale_count healed_count failed_count notified_count : ℕ) → MetricEvent
  queue_wait_time : (request_id : String) (wait_ms : ℕ) → MetricEvent
  circuit_breaker_transition : (from_state to_state : String) (failure_count : ℕ) → MetricEvent
  scaling_decided :
      (action reason : String) (current_workers desired_workers : ℕ) (dry_run : Bool) → MetricEvent

-- `InMemoryMetricsSink.events`
abbrev pub Sink : Type 0
Sink = List MetricEvent

-- `MetricsCollector._emit` over an in-memory sink.
unfoldable pub emit : MetricEvent → Sink → Sink
emit event events = events ++ event ∷ []
