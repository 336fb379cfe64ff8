-- ===== src/Inference/Adapter.antt =====
-- inference/vllm_adapter.py: what the worker hands to the model server and what comes back.
pub mod Vllm
pub mod Mock
pub mod Endpoint
use ai_inference_project.Common.{ℕ, String, Bool, true, false, Option, none, some}

pub record InferenceInput : Type 0 where
  pub request_id : String
  pub prompt : String
  pub context : String

pub record InferenceOutput : Type 0 where
  pub request_id : String
  pub text : Option String
  pub error : Option String
  pub duration_ms : ℕ

-- The property `success`.
unfoldable pub success : InferenceOutput → Bool
success o = elim o.text [ none ↦ false | some _ ↦ elim o.error [ none ↦ true | some _ ↦ false ] ]
