-- ===== src/Examples/Models.antt =====
-- Routing, latency, batching and placement on concrete inputs.
use mathlib.Core.List.{mem-cons}
use mathlib.Core.Logic.Or
use ai_inference_project.Common.{
  ℕ, ◌*◌, ◌/◌, ◌≤◌, ◌<◌, ◌≡◌, ◌↔◌, refl, String, true, false, some, none, List, [], ◌∷◌, length,
  leb, ltb, ◌≤◌, filter, All, Perm, arith, ok, string_key,
}
use ai_inference_project.Common.Int.{pos}
use ai_inference_project.Common.Dict
use ai_inference_project.Inference.Latency.{LatencyTracker, percentile, is_degraded}
use ai_inference_project.Inference.Latency.Laws.{window_of, percentile_rank, is_degraded_lem}
use ai_inference_project.Inference.Router.{
  ModelProfile, ModelRouter, InferenceRequest, RoutingDecision, route, new_router, by_name,
}
use ai_inference_project.Inference.Router.Routes.{IsAnswer, route_lem}
use ai_inference_project.Inference.Batching.{
  BatchCandidate, BatchingPolicy, InferenceBatch, build_batches,
}
use ai_inference_project.Inference.Batching.Split.{IsSound, flat}
use ai_inference_project.Inference.Batching.Laws.{build_batches_lem}
use ai_inference_project.Inference.GpuScheduler.{
  GpuScheduler, GpuDeviceSnapshot, ModelResourceProfile, schedule, is_scheduled, free_memory_mb,
}
use ai_inference_project.Inference.GpuScheduler.Laws.{
  HasCapacity, IsTightest, schedule-safe, schedule-live,
}

abbrev tracker : LatencyTracker
tracker = record {
  policy = record { window_size = 50; p95_threshold_ms = 20; min_samples = 3 };
  windows = ("small", 30 ∷ 10 ∷ 20 ∷ 40 ∷ []) ∷ [];
}

percentile_rank_example :
    let window : List ℕ = 30 ∷ 10 ∷ 20 ∷ 40 ∷ [] in
    (4 * 95 / 100 < length (filter (λ x. leb x (percentile window 95)) window))
    × (length (filter (λ x. ltb x (percentile window 95)) window) ≤ 4 * 95 / 100)
percentile_rank_example = percentile_rank (30 ∷ 10 ∷ 20 ∷ 40 ∷ []) 95 (omega arith) (omega arith)

is_degraded_lem_example :
    (is_degraded tracker "small" ≡ true)
    ↔ ((3 ≤ length (window_of tracker "small")) × (20 < percentile (window_of tracker "small") 95))
is_degraded_lem_example = is_degraded_lem tracker "small" (omega arith)

abbrev small : ModelProfile
small = record {
  name = "small";
  max_context_tokens = 4096;
  priority = 1;
  supports_batching = true;
  enabled = true;
  description = "";
}

abbrev large : ModelProfile
large = record {
  name = "large";
  max_context_tokens = 32768;
  priority = 2;
  supports_batching = false;
  enabled = true;
  description = "";
}

abbrev router : ModelRouter
router = record {
  profiles = ("small", small) ∷ ("large", large) ∷ [];
  default_model = "small";
  latency_tracker = some tracker;
}

abbrev question : InferenceRequest
question = record {
  prompt = "Why?";
  context = "";
  event_type = "rag_query";
  priority = pos 5;
  requested_model = none;
}

route_lem_example :
    (d : RoutingDecision) × (p : ModelProfile) × (route router question ≡ ok d)
    × IsAnswer router question d p
unfolding new_router by_name Dict.put Dict.get
route_lem_example = route_lem (small ∷ large ∷ []) "small" (some tracker) router question refl

abbrev batching : BatchingPolicy
batching = record {
  max_batch_size = 2;
  max_batch_tokens = 100;
  high_priority_threshold = pos 2;
  allow_single_item_batches = true;
}

abbrev candidate : String → BatchCandidate
candidate request_id = record {
  request_id = request_id;
  prompt = "p";
  context = "";
  model_name = "small";
  event_type = "rag_query";
  priority = pos 5;
  estimated_tokens = 10;
  batchable = true;
  raw_payload = record { timestamp = none; metadata = none };
}

abbrev strict : BatchingPolicy
strict = record batching { allow_single_item_batches = false }

build_batches_lem_example :
    let cs = candidate "a" ∷ candidate "b" ∷ candidate "c" ∷ [] in
    (bs : List InferenceBatch) × (build_batches batching cs ≡ ok bs)
    × Perm (flat bs) cs
    × All (IsSound batching) bs
build_batches_lem_example =
    build_batches_lem batching (candidate "a" ∷ candidate "b" ∷ candidate "c" ∷ [])
      (record { size = omega arith; tokens = omega arith }) refl

abbrev profile : ModelResourceProfile
profile = record {
  model_name = "small";
  required_memory_mb = 8000;
  expected_utilization_percent = 3000;
  max_batch_size = 4;
}

abbrev device : GpuDeviceSnapshot
device = record {
  device_id = "gpu-0";
  total_memory_mb = 24000;
  used_memory_mb = 1000;
  utilization_percent = 1000;
  unhealthy = false;
}

abbrev scheduler : GpuScheduler
scheduler = record {
  model_profiles = ("small", profile) ∷ [];
  policy = record {
    memory_reserve_mb = 1024;
    max_gpu_utilization_percent = 9000;
    allow_cpu_fallback = false;
  };
}

abbrev capacity : HasCapacity scheduler.policy profile device
unfolding free_memory_mb
capacity = record { healthy = refl; memory = omega arith; utilization = omega arith }

placed : is_scheduled (schedule scheduler "small" (device ∷ []) 2) ≡ true
unfolding Dict.get
placed =
    schedule-live scheduler "small" (device ∷ []) 2 profile device refl (omega arith)
      (mem-cons.1 (Or.inl refl)) capacity

schedule-live_example : is_scheduled (schedule scheduler "small" (device ∷ []) 2) ≡ true
unfolding Dict.get
schedule-live_example =
    schedule-live scheduler "small" (device ∷ []) 2 profile device refl (omega arith)
      (mem-cons.1 (Or.inl refl)) capacity

schedule-safe_example :
    (p : ModelResourceProfile) × (d : GpuDeviceSnapshot) × (Dict.get scheduler.model_profiles
        "small"
      ≡ some p)
    × (2 ≤ p.max_batch_size)
    × IsTightest scheduler.policy p (device ∷ []) d
    × ((schedule scheduler "small" (device ∷ []) 2).device_id ≡ some d.device_id)
schedule-safe_example = schedule-safe scheduler "small" (device ∷ []) 2 placed
