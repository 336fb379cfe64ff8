-- ===== src/Worker/Setup/Loaded.antt =====
-- The worker's configuration from core/config.py: what is loaded is what the set-up of the worker
-- relies on.
use ai_inference_project.Common.{◌≤◌, ◌≡◌, refl, false, String, get_or, string_key, ok}
use ai_inference_project.Common.Dict
use ai_inference_project.Common.Dict.{Dict}
use ai_inference_project.Core.Config.{Value, Reader, load_config, text_at, number_at, is_nan_at}
use ai_inference_project.Core.Config.Laws.{whole_field, number_field}
use ai_inference_project.Worker.Setup.{WorkerConfig}
use ai_inference_project.Worker.Setup.Placement.{IsAllowed}

-- The part of a loaded configuration that the set-up reads.
abbrev pub config_of : Dict String Value → WorkerConfig
config_of values = record {
  vllm_model = get_or (text_at values "vllm_model") "";
  vllm_small_model = text_at values "vllm_small_model";
  vllm_large_model = text_at values "vllm_large_model";
  vllm_small_context_tokens = number_at values "vllm_small_context_tokens";
  vllm_large_context_tokens = number_at values "vllm_large_context_tokens";
  worker_batch_size = number_at values "worker_batch_size";
  worker_batch_token_budget = number_at values "worker_batch_token_budget";
  gpu_memory_reserve_mb = number_at values "gpu_memory_reserve_mb";
  gpu_max_utilization_percent = number_at values "gpu_max_utilization_percent";
  gpu_small_model_memory_mb = number_at values "gpu_small_model_memory_mb";
  gpu_large_model_memory_mb = number_at values "gpu_large_model_memory_mb";
  gpu_small_model_max_batch_size = number_at values "gpu_small_model_max_batch_size";
  gpu_large_model_max_batch_size = number_at values "gpu_large_model_max_batch_size";
  gpu_device_id = get_or (text_at values "gpu_device_id") "";
  gpu_device_memory_mb = number_at values "gpu_device_memory_mb";
  gpu_device_used_memory_mb = number_at values "gpu_device_used_memory_mb";
  gpu_device_utilization_percent = number_at values "gpu_device_utilization_percent";
}

-- A configuration that is loaded, from whatever environment, has everything that the set-up of the
-- router and the scheduler relies on, but for what the validation lets pass: a device that uses more
-- memory than it has, and a utilization that is NaN.
pub load_config-IsAllowed :
    (reader : Reader) (values : Dict String Value)
    → load_config reader ≡ ok values
    → is_nan_at values "gpu_max_utilization_percent" ≡ false
    → is_nan_at values "gpu_device_utilization_percent" ≡ false
    → number_at values "gpu_device_used_memory_mb" ≤ number_at values "gpu_device_memory_mb"
    → IsAllowed (config_of values)
unfolding Dict.get
load_config-IsAllowed reader values h real device_real fits = record {
  small_memory = (whole_field reader values "gpu_small_model_memory_mb" 1 262144 h refl).0;
  large_memory = (whole_field reader values "gpu_large_model_memory_mb" 1 262144 h refl).0;
  small_batch = (whole_field reader values "gpu_small_model_max_batch_size" 1 256 h refl).0;
  large_batch = (whole_field reader values "gpu_large_model_max_batch_size" 1 256 h refl).0;
  some_utilization =
      (number_field reader values "gpu_max_utilization_percent" 100 10000 h refl real).0;
  within_utilization =
      (number_field reader values "gpu_max_utilization_percent" 100 10000 h refl real).1;
  device_utilization =
      (number_field reader values "gpu_device_utilization_percent" 0 10000 h refl device_real).1;
  device_memory = fits;
}
