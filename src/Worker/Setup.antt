-- ===== src/Worker/Setup.antt =====
-- core/worker.py: the parts that `RAGWorker.__init__` makes from the configuration of the worker,
-- and the decisions of the main loop that depend on it.
pub mod Placement
pub mod Loaded
use ai_inference_project.Common.{
  ℕ, String, leb, value_error, ◌&&◌, Bool, true, false, Option, none, some, List, [], ◌∷◌,
  if◌then◌else◌, ◌==◌, string_key, truthy, get_or, Result, ok, raised,
}
use ai_inference_project.Common.Dict
use ai_inference_project.Common.Dict.{Dict}
use ai_inference_project.Common.Int.{pos}
use ai_inference_project.Inference.Batching
use ai_inference_project.Inference.Batching.{BatchingPolicy}
use ai_inference_project.Inference.Latency.{LatencyTracker}
use ai_inference_project.Inference.Router.{ModelRouter, new_router}
use ai_inference_project.Inference.GpuScheduler.{
  GpuDeviceSnapshot, ModelResourceProfile, SchedulingPolicy, GpuScheduler, check_profile,
  check_snapshot, hundred, new_scheduler,
}
use ai_inference_project.Gateway.Api.Router.{two_profiles}

-- `WorkerConfig`, as far as the router, the batcher and the scheduler depend on it. A percentage is
-- a whole number of hundredths of a percent.
pub record WorkerConfig : Type 0 where
  pub vllm_model : String
  pub vllm_small_model : Option String
  pub vllm_large_model : Option String
  pub vllm_small_context_tokens : ℕ
  pub vllm_large_context_tokens : ℕ
  pub worker_batch_size : ℕ
  pub worker_batch_token_budget : ℕ
  pub gpu_memory_reserve_mb : ℕ
  pub gpu_max_utilization_percent : ℕ
  pub gpu_small_model_memory_mb : ℕ
  pub gpu_large_model_memory_mb : ℕ
  pub gpu_small_model_max_batch_size : ℕ
  pub gpu_large_model_max_batch_size : ℕ
  pub gpu_device_id : String
  pub gpu_device_memory_mb : ℕ
  pub gpu_device_used_memory_mb : ℕ
  pub gpu_device_utilization_percent : ℕ

-- `config_str(name, default)`
unfoldable pub config_str : Option String → (default : String) → String
config_str value default = get_or (truthy value) default

abbrev pub default_model : WorkerConfig → String
default_model c = config_str (some c.vllm_model) "local-default-model"

abbrev pub small_model : WorkerConfig → String
small_model c = config_str c.vllm_small_model (default_model c)

abbrev pub large_model : WorkerConfig → String
large_model c = config_str c.vllm_large_model (default_model c)

-- `_initialize_model_router`
unfoldable pub initialize_model_router : WorkerConfig → LatencyTracker → Result ModelRouter
initialize_model_router c tracker =
    new_router
      (two_profiles (small_model c) (large_model c) c.vllm_small_context_tokens
        c.vllm_large_context_tokens)
      (small_model c) (some tracker)

-- `_initialize_dynamic_batcher`; what it does not set is the default of `BatchingPolicy`.
unfoldable pub initialize_dynamic_batcher : WorkerConfig → Result BatchingPolicy
initialize_dynamic_batcher c = Batching.check_policy (record {
  max_batch_size = c.worker_batch_size;
  max_batch_tokens = c.worker_batch_token_budget;
  high_priority_threshold = pos 2;
  allow_single_item_batches = true;
})

abbrev pub small_resources : WorkerConfig → ModelResourceProfile
small_resources c = record {
  model_name = small_model c;
  required_memory_mb = c.gpu_small_model_memory_mb;
  expected_utilization_percent = 2_500;
  max_batch_size = c.gpu_small_model_max_batch_size;
}

abbrev pub large_resources : WorkerConfig → ModelResourceProfile
large_resources c = record {
  model_name = large_model c;
  required_memory_mb = c.gpu_large_model_memory_mb;
  expected_utilization_percent = 5_500;
  max_batch_size = c.gpu_large_model_max_batch_size;
}

abbrev pub scheduling_policy : WorkerConfig → SchedulingPolicy
scheduling_policy c = record {
  memory_reserve_mb = c.gpu_memory_reserve_mb;
  max_gpu_utilization_percent = c.gpu_max_utilization_percent;
  allow_cpu_fallback = false;
}

-- `SchedulingPolicy.__post_init__`, where a limit of one percent is 100.
unfoldable pub check_policy : SchedulingPolicy → Result SchedulingPolicy
check_policy p =
    if leb 100 p.max_gpu_utilization_percent && leb p.max_gpu_utilization_percent hundred
    then ok p
    else raised value_error

-- `GPUScheduler(model_profiles=profiles, policy=SchedulingPolicy(...))`
unfoldable pub scheduler_over :
    Dict String ModelResourceProfile → SchedulingPolicy → Result GpuScheduler
scheduler_over profiles policy = elim (check_policy policy) [
  | raised e ↦ raised e
  | ok checked ↦ new_scheduler profiles checked
]

-- `_initialize_gpu_scheduler`
unfoldable pub initialize_gpu_scheduler : WorkerConfig → Result GpuScheduler
initialize_gpu_scheduler c = elim (check_profile (small_resources c)) [
  | raised e ↦ raised e
  | ok small ↦
      if large_model c == small_model c
      then scheduler_over ((small_model c, small) ∷ []) (scheduling_policy c)
      else elim (check_profile (large_resources c)) [
        | raised e ↦ raised e
        | ok large ↦
            scheduler_over (Dict.put ((small_model c, small) ∷ []) (large_model c) large)
              (scheduling_policy c)
      ]
]

abbrev pub snapshot : WorkerConfig → GpuDeviceSnapshot
snapshot c = record {
  device_id = c.gpu_device_id;
  total_memory_mb = c.gpu_device_memory_mb;
  used_memory_mb = c.gpu_device_used_memory_mb;
  utilization_percent = c.gpu_device_utilization_percent;
  unhealthy = false;
}

-- `get_gpu_snapshots`
unfoldable pub get_gpu_snapshots : WorkerConfig → Result (List GpuDeviceSnapshot)
get_gpu_snapshots c = elim (check_snapshot (snapshot c)) [
  | raised e ↦ raised e
  | ok d ↦ ok (d ∷ [])
]
