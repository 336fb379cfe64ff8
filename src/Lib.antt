-- ===== src/Lib.antt =====
-- The secure inference platform (src/ai_inference): a gateway admits requests of tenants and puts
-- them on a queue; a worker takes them from it, chooses a model for each, groups them into batches,
-- places each batch on a device, sends it to the model server behind a circuit breaker, and records
-- what became of each request in a result store, which a reconciliation engine heals.
--
-- Files, with the code each is about (paths under src/ai_inference):
--   Core/Metrics                core/metrics.py: MetricEvent, the in-memory sink, _emit;
--                               Prometheus: PrometheusMetricsSink; Text: its rendering
--   Core/Audit                  core/audit.py: the in-memory and the null log
--   Core/ResultStore            core/result_store.py: the in-memory store; Items: the DynamoDB items
--   Core/Ttl                    core/ttl.py: RequestTTL
--   Core/PriorityQueue          core/priority_queue.py: the lanes, put, get, get_batch
--   Core/Autoscaler             core/autoscaler.py: evaluate, _scale_up, _scale_down
--   Core/ScalingExecutor        core/scaling_executor.py: execute
--   Core/Reconciliation         core/reconciliation.py: ReconciliationEngine
--   Core/ReconciliationScheduler core/reconciliation_scheduler.py: start, stop, _loop
--   Core/WorkerMetricsServer    core/worker_metrics_server.py
--   Core/Config                 core/config.py: _env_to_dict, WorkerConfig, its validation;
--                               Manager: get_config_manager
--   Inference/CircuitBreaker    inference/circuit_breaker.py
--   Inference/Latency           inference/latency.py
--   Inference/Router            inference/router.py
--   Inference/Batching          inference/batching.py
--   Inference/GpuScheduler      inference/gpu_scheduler.py
--   Inference/Adapter           inference/vllm_adapter.py: the inputs and outputs of a call;
--                               Vllm, Mock: the two adapters; Endpoint: VllmEndpointConfig
--   Gateway/Admission           gateway/admission.py: AdmissionController
--   Gateway/Tenant              gateway/tenant.py
--   Gateway/Auth                gateway/auth.py
--   Gateway/Api                 gateway/api.py: submit_inference and the endpoints that read;
--                               Router: build_router
--   Worker, Worker/Actions      core/worker.py: WorkerHealth, the worker's state and its effects
--   Worker/Batch                core/worker.py: RAGWorker.process_batch
--   Worker/Messages             core/worker.py: task_to_batch_candidate, process_messages
--   Worker/Single               core/worker.py: perform_inference, process_message
--   Worker/Loop                 core/worker.py: check_kill_switch, run, health_check_loop
--   Worker/Setup                core/worker.py: the router, batcher and scheduler that the
--                               configuration gives; Loaded: from core/config.py
--   Platform                    the gateway and the worker over one result store
-- Beside a component, Laws and the other children hold its theorems. Common has what all share, and
-- Examples the theorems at concrete inputs.
--
-- State and effects. The components that keep a state are records, and an operation takes the state
-- and returns the new one, with the metric events that it emits where it emits any. The worker's
-- operations are actions: functions of the whole worker that return a value or an exception, with
-- the worker as it then is, so that what was done before an exception stays done.
--
-- Units. An instant is a natural number of microseconds, or of the unit of the limits that it is
-- compared with; durations and percentages are natural numbers of a fixed fraction. Python's floats
-- are read as exact. A comparison of a difference of instants with a limit is written as a sum, so
-- that it says the same where the clock steps back. Every reading of a clock is an argument, or the
-- next entry of a sequence of readings that is arbitrary but where a theorem says that it ascends.
-- The TTL check takes its reading also where the timestamp is absent. No definition runs on fuel:
-- each loop is a recursion on the list or on the count that it goes through.
--
-- The main loop. What comes from outside in a turn of the worker's loop (the kill switch, the
-- received messages, the shutdown event) is a list of turns; a run goes through the list and ends
-- where shutdown was asked for.
--
-- Parameters. Python's datetime, the model server, what SQS answers to a deletion and the order in which the adapter's threads end,
-- the queue's and the notification's publishers, the failure analyzer, the JSON library with the
-- validation of a task, the digest of a request and the random ids are arguments; what a theorem
-- assumes of them is among its hypotheses.
--
-- Not modelled: logging, the reading of .env files, the servers' sockets, the file log, the
-- composite metrics sink, the other calls of the cloud services, the threads of the health check, the
-- pauses between turns and retries, failures of the result store, and floats of the configuration
-- that are finer than hundredths.
pub mod Common
pub mod Core
pub mod Inference
pub mod Gateway
pub mod Worker
pub mod Platform
pub mod Examples
