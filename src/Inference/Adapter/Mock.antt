-- ===== src/Inference/Adapter/Mock.antt =====
-- inference/vllm_adapter.py: `MockVllmAdapter`, with the draws `random() < failure_rate` as an
-- argument, by the number of the call.

use Prim.Native.String.{◌++◌}
use ai_inference_project.Common.{
  ℕ, zero, suc, ◌+◌, ◌≡◌, refl, String, Bool, none, some, List, [], ◌∷◌, map, length, if◌then◌else◌,
  arith,
}
use ai_inference_project.Inference.Adapter.{InferenceInput, InferenceOutput}

-- `text[:n]`
unfoldable pub prefix : ℕ → String → String
prefix zero s = ""
prefix (suc n) String.[] = ""
prefix (suc n) (String.◌∷◌ c s) = String.◌∷◌ c (prefix n s)

-- The loop of `infer_batch`, with the number of calls made before it and after it.
unfoldable pub mock_batch :
    (fails : ℕ → Bool) (latency_ms : ℕ) (model : String) (call_count : ℕ)
    → List InferenceInput
    → List InferenceOutput × ℕ
unfolding prefix
mock_batch fails latency_ms model call_count [] = ([], call_count)
mock_batch fails latency_ms model call_count (i ∷ inputs) =
    let (rest, calls) = mock_batch fails latency_ms model (call_count + 1) inputs in
    let o : InferenceOutput =
      if fails (call_count + 1)
      then record {
        request_id = i.request_id;
        text = none;
        error = some "Mock inference failure";
        duration_ms = latency_ms;
      }
      else record {
        request_id = i.request_id;
        text = some ("[" ++ model ++ "] Response to: " ++ prefix 80 i.prompt);
        error = none;
        duration_ms = latency_ms;
      } in
    (o ∷ rest, calls)

-- The mock answers each input, in order, and counts a call for each.
pub mock_batch_lem :
    (fails : ℕ → Bool) (latency_ms : ℕ) (model : String) (call_count : ℕ)
    (inputs : List InferenceInput)
    → let (os, calls) = mock_batch fails latency_ms model call_count inputs in
      (map (λ o. o.request_id) os ≡ map (λ i. i.request_id) inputs)
      × (calls ≡ call_count + length inputs)
unfolding mock_batch
mock_batch_lem fails latency_ms model n [] = (refl, omega arith)
mock_batch_lem fails latency_ms model n (i ∷ inputs) =
    let (ids, counted) = mock_batch_lem fails latency_ms model (n + 1) inputs in
    (ground (arith, ids), omega (arith, counted))
