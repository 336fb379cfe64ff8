-- ===== src/Core.antt =====
-- ai_inference/core: the shared services of the platform.
pub mod Metrics
pub mod Audit
pub mod ResultStore
pub mod Ttl
pub mod PriorityQueue
pub mod Autoscaler
pub mod Reconciliation
pub mod ReconciliationScheduler
pub mod ScalingExecutor
pub mod Config
pub mod WorkerMetricsServer
