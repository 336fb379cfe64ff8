-- ===== src/Examples/Batches.antt =====
-- The worker on a concrete batch: a model server that echoes the prompts, with the default limits
-- of the GPU scheduler.
use ai_inference_project.Common.{
  ◌≡◌, refl, ap, String, true, some, none, List, [], ◌∷◌, map, string_key, ok,
}
use ai_inference_project.Common.Dict
use ai_inference_project.Common.Dict.{Dict}
use ai_inference_project.Common.Int.{pos}
use ai_inference_project.Core.Audit.{in_memory}
use ai_inference_project.Inference.Adapter.{InferenceInput, InferenceOutput}
use ai_inference_project.Inference.Batching.{BatchCandidate, InferenceBatch}
use ai_inference_project.Inference.CircuitBreaker.{closed}
use ai_inference_project.Worker.{Worker}
use ai_inference_project.Worker.Batch.{Environment}
use ai_inference_project.Worker.Batch.Outputs.{is_in}
use ai_inference_project.Worker.Batch.Run.{Answers, IsUp}
use ai_inference_project.Core.ResultStore
use ai_inference_project.Worker.Setup.{WorkerConfig, snapshot}
use ai_inference_project.Worker.Setup.Placement.{scheduler_for}

abbrev pub config : WorkerConfig
config = record {
  vllm_model = "small";
  vllm_small_model = none;
  vllm_large_model = some "large";
  vllm_small_context_tokens = 4096;
  vllm_large_context_tokens = 32768;
  worker_batch_size = 4;
  worker_batch_token_budget = 12000;
  gpu_memory_reserve_mb = 1024;
  gpu_max_utilization_percent = 9200;
  gpu_small_model_memory_mb = 8192;
  gpu_large_model_memory_mb = 24576;
  gpu_small_model_max_batch_size = 8;
  gpu_large_model_max_batch_size = 2;
  gpu_device_id = "gpu-0";
  gpu_device_memory_mb = 49152;
  gpu_device_used_memory_mb = 0;
  gpu_device_utilization_percent = 0;
}

abbrev echo : InferenceInput → InferenceOutput
echo i = record { request_id = i.request_id; text = some i.prompt; error = none; duration_ms = 12 }

abbrev pub env : Environment
env = record {
  calendar = record { fromisoformat = λ text. some 5; isoformat = λ t. "now" };
  gpu_scheduling_enabled = true;
  gpu_scheduler = scheduler_for config;
  gpu_snapshots = ok (snapshot config ∷ []);
  max_age = 300;
  expiry_error = "Expired";
  infer_batch = λ model inputs. ok (map echo inputs);
  delete_message = λ receipt. ok tt;
}

abbrev candidate : BatchCandidate
candidate = record {
  request_id = "r1";
  prompt = "p";
  context = "";
  model_name = "small";
  event_type = "rag_query";
  priority = pos 5;
  estimated_tokens = 10;
  batchable = true;
  raw_payload = record { timestamp = some (some "t"); metadata = none };
}

abbrev batch : InferenceBatch
batch = record {
  model_name = "small";
  event_type = "rag_query";
  candidates = candidate ∷ [];
  reason = "single_batchable_request";
}

abbrev messages : Dict String String
messages = ("r1", "receipt-1") ∷ []

abbrev pub worker : Worker
worker = record {
  health = record { messages_processed = 0; errors_count = 0; is_healthy = true };
  result_store = [];
  metrics = [];
  audit = in_memory [];
  tenant_engine = none;
  circuit_breaker = record {
    policy = record { failure_threshold = 5; recovery_timeout = 30; half_open_max_probes = 1 };
    state = closed;
    failure_count = 0;
    last_failure_time = 0;
    half_open_probes = 0;
  };
  latency_tracker = record {
    policy = record { window_size = 50; p95_threshold_ms = 5000; min_samples = 3 };
    windows = [];
  };
  deleted = [];
  clock = λ n. n;
  reads = 0;
}

echo-ids :
    (inputs : List InferenceInput)
    → map (λ o. o.request_id) (map echo inputs) ≡ map (λ i. i.request_id) inputs
echo-ids [] = refl
echo-ids (i ∷ inputs) = ap (λ ids. i.request_id ∷ ids) (echo-ids inputs)

pub env-Answers : Answers env
env-Answers model inputs = (map echo inputs, refl, λ x. ap (λ ids. is_in ids x) (echo-ids inputs))

pub env-IsUp : IsUp env
env-IsUp = record {
  answers = env-Answers;
  deletes = λ receipt. refl;
  observes = λ on. (snapshot config ∷ [], refl);
}
