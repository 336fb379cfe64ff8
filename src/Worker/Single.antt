-- ===== src/Worker/Single.antt =====
-- core/worker.py: the processing of a single message, with its retries. The client of the model
-- server is an argument: what it answers to an attempt for a model and a task, where an answer
-- without content is `none`. The pauses between the attempts are not modelled.
pub mod Retries
use ai_inference_project.Common.{
  ℕ, zero, suc, ◌+◌, String, Bool, true, false, Option, none, some, truthy, Result, ok, raised,
}
use ai_inference_project.Inference.Router.{ModelRouter, route}
use ai_inference_project.Worker.Actions.{
  Action, Outcome, pure, ◌>>=◌, ◌>>◌, health_success, health_error, delete_message,
}
use ai_inference_project.Worker.Messages.{RagTask, Message, router_of, request_of}

-- `create` with the number of the attempt, from 0.
abbrev pub Completions : Type 0
Completions = (attempt : ℕ) → (model : String) → RagTask → Result (Option String)

-- What an attempt does with the outcome of its `try` block, where `retry` is the rest of the loop.
abbrev pub settle :
    Result (Option String) → (retry : Action (Option String)) → Action (Option String)
settle (ok text) retry = health_success >> pure text
settle (raised e) retry = health_error >> retry

module _ (create : Completions) where
  -- The attempts of `perform_inference_with_model` from number `attempt` on.
  unfoldable pub attempts_with :
      (model : String) → RagTask → (attempt left : ℕ) → Action (Option String)
  attempts_with model task attempt zero = pure none
  attempts_with model task attempt (suc left) =
      let retry = attempts_with model task (attempt + 1) left in
      settle (create attempt model task) retry

  -- The answer that an attempt of `perform_inference` gets, after its routing.
  unfoldable pub routed_answer : ModelRouter → RagTask → (attempt : ℕ) → Result (Option String)
  routed_answer router task attempt = elim (route router (request_of task)) [
    | raised e ↦ raised e
    | ok d ↦ create attempt d.model_name task
  ]

  -- The attempts of `perform_inference`.
  unfoldable pub attempts : ModelRouter → RagTask → (attempt left : ℕ) → Action (Option String)
  attempts router task attempt zero w = pure none w
  attempts router task attempt (suc left) w =
      let retry = attempts router task (attempt + 1) left in
      settle (routed_answer (router_of router w.latency_tracker) task attempt) retry w

-- `perform_inference`, where `ai_client` may be missing.
unfoldable pub perform_inference :
    (max_retries : ℕ) → Option Completions → ModelRouter → RagTask → Action (Option String)
perform_inference max_retries none router task = pure none
perform_inference max_retries (some create) router task = attempts create router task 0 max_retries

-- `perform_inference_with_model`
unfoldable pub perform_inference_with_model :
    (max_retries : ℕ) → Option Completions → RagTask → (model : String) → Action (Option String)
perform_inference_with_model max_retries none task model = pure none
perform_inference_with_model max_retries (some create) task model =
    attempts_with create model task 0 max_retries

-- What `process_message` does with the answer.
unfoldable pub finish_message :
    (deletion : Result (Unit {0})) → Message → Option String → Action Bool
finish_message deletion message answer = elim (truthy answer) [
  | none ↦ pure false
  | some text ↦ delete_message deletion message.receipt_handle >> pure true
]

-- `except Exception` of `process_message`.
unfoldable pub caught : Outcome Bool → Outcome Bool
caught o = elim o.result [ ok b ↦ o | raised e ↦ (health_error >> pure false) o.after ]

-- `process_message`, where `parse` is the JSON library with the validation of `RAGTask`, and
-- `deletion` what SQS answers to the deletion of the message.
unfoldable pub process_message :
    (max_retries : ℕ)
    → Option Completions
    → ModelRouter
    → (String → Option RagTask)
    → (deletion : Result (Unit {0})) → Message
    → Action Bool
process_message max_retries client router parse deletion message w = elim message.body [
  | none ↦ (health_error >> pure false) w
  | some body ↦ elim (parse body) [
    | none ↦ (health_error >> pure false) w
    | some task ↦
        caught
          ((perform_inference max_retries client router task >>= finish_message deletion message) w)
  ]
]
