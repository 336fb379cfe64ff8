-- ===== src/Worker.antt =====
-- ai_inference/core/worker.py: the state of a worker, its health record, and the operations that
-- `process_batch` composes.
pub mod Actions
pub mod Batch
pub mod Messages
pub mod Setup
pub mod Single
pub mod Loop
use ai_inference_project.Common.{
  ℕ, ◌+◌, ◌*◌, String, Bool, true, false, Option, List, leb, ltb, if◌then◌else◌,
}
use ai_inference_project.Core.Metrics.{Sink}
use ai_inference_project.Core.Audit.{AuditLog}
use ai_inference_project.Core.ResultStore.{ResultStore}
use ai_inference_project.Inference.CircuitBreaker.{CircuitBreaker}
use ai_inference_project.Inference.Latency.{LatencyTracker}
use ai_inference_project.Inference.GpuScheduler.{GpuScheduler, GpuDeviceSnapshot}
use ai_inference_project.Gateway.Tenant.{TenantPolicyEngine}

-- `WorkerHealth`, without its timestamps and without the text of the last error.
pub record WorkerHealth : Type 0 where
  pub messages_processed : ℕ
  pub errors_count : ℕ
  pub is_healthy : Bool

unfoldable pub record_success : WorkerHealth → WorkerHealth
record_success h = record h { messages_processed = h.messages_processed + 1; is_healthy = true }

-- `errors / (processed + errors) > 0.5` is `processed + errors < 2 * errors`.
unfoldable pub record_error : WorkerHealth → WorkerHealth
record_error h =
    let errors = h.errors_count + 1 in
    record h {
      errors_count = errors;
      is_healthy =
          if ltb 10 errors
          then (if ltb 0 h.messages_processed
              then (if ltb (h.messages_processed + errors) (2 * errors)
                  then false
                  else h.is_healthy)
              else h.is_healthy)
          else h.is_healthy;
    }

-- `RAGWorker`, with what it shares with others: `deleted` holds the receipt handles of the messages
-- that it deleted from the queue, and `clock` and `reads` are the readings of the clock, in
-- microseconds, and how many were taken.
pub record Worker : Type 0 where
  pub health : WorkerHealth
  pub result_store : ResultStore
  pub metrics : Sink
  pub audit : AuditLog
  pub tenant_engine : Option TenantPolicyEngine
  pub circuit_breaker : CircuitBreaker
  pub latency_tracker : LatencyTracker
  pub deleted : List String
  pub clock : ℕ → ℕ
  pub reads : ℕ
