-- ===== src/Inference.antt =====
-- ai_inference/inference: what a worker does with a request, from routing to the model server.
pub mod CircuitBreaker
pub mod Latency
pub mod Router
pub mod Batching
pub mod GpuScheduler
pub mod Adapter
