-- ===== src/Worker/Batch/Server.antt =====
-- The worker with the `VllmBatchAdapter` as its model server.
use ai_inference_project.Common.{
  ◌≡◌, refl, sym, ap, ◌∙◌, String, ◌||◌, List, [], ◌∷◌, map, ok, ◌==◌, string_key,
}
use ai_inference_project.Common.Perms.{any}
use ai_inference_project.Inference.Adapter.Vllm.{Client, Completes, infer_batch, ids-infer_batch}
use ai_inference_project.Worker.Batch.{Environment}
use ai_inference_project.Worker.Batch.Outputs.{is_in}
use ai_inference_project.Worker.Batch.Run.{Answers}

pub is_in-map :
    {A : Type 0} (key : A → String) (xs : List A) (x : String)
    → is_in (map key xs) x ≡ any (λ a. key a == x) xs
is_in-map key [] x = refl
is_in-map key (a ∷ xs) x = ap (λ b. key a == x || b) (is_in-map key xs x)

-- The environment whose calls of the model server go to the adapter.
abbrev pub with_vllm : Client → Environment → Environment
with_vllm client env = record env {
  infer_batch = λ model inputs. ok (infer_batch client model inputs);
}

-- The adapter keeps what the worker relies on: it answers every call, whatever the single calls
-- raise and in whatever order its threads complete, with outputs for exactly the requests that it
-- is given.
pub with_vllm-Answers :
    (client : Client) (env : Environment) → Completes client → Answers (with_vllm client env)
with_vllm-Answers client env h model inputs = (
  infer_batch client model inputs,
  refl,
  λ x.
      is_in-map (λ o. o.request_id) (infer_batch client model inputs) x
      ∙ ids-infer_batch client model inputs x h
      ∙ sym (is_in-map (λ i. i.request_id) inputs x),
)
