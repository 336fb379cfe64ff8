-- ===== src/Worker/Messages.antt =====
-- core/worker.py: `task_to_batch_candidate` and `process_messages`. The parsing of a message's body,
-- by the JSON library and the validation of `RAGTask`, is an argument, and so are the id that is made
-- from the clock and the ids of batches, by the number of the batch. The receipt handle is in every
-- message that the queue hands out.
pub mod Collect
pub mod Done
pub mod Tenants
use ai_inference_project.Common.{
  ℕ, suc, ◌+◌, String, Bool, true, false, Option, none, some, List, [], ◌∷◌, ◌++◌, if◌then◌else◌,
  truthy, string_key, Result, ok, raised,
}
use ai_inference_project.Common.Int.{ℤ}
use ai_inference_project.Common.Dict
use ai_inference_project.Common.Dict.{Dict}
use ai_inference_project.Inference.Batching.{
  BatchCandidate, BatchingPolicy, InferenceBatch, build_batches,
}
use ai_inference_project.Inference.Latency.{LatencyTracker}
use ai_inference_project.Inference.Router.{ModelRouter, InferenceRequest, RoutingDecision, route}
use ai_inference_project.Worker.{Worker}
use ai_inference_project.Worker.Actions.{
  Action, Outcome, pure, raise, ◌>>=◌, ◌>>◌, continue, now, health_error,
}
use ai_inference_project.Worker.Batch.{Environment, process_batch}

pub record RagTask : Type 0 where
  pub prompt : String
  pub context : String
  pub event_type : String
  pub event_id : Option String
  pub timestamp : Option String
  pub priority : ℤ
  pub requested_model : Option String

-- A message of the queue; a body that is absent is `none`.
pub record Message : Type 0 where
  pub body : Option String
  pub receipt_handle : String

pub record Intake : Type 0 where
  pub env : Environment
  pub router : ModelRouter
  pub policy : BatchingPolicy
  pub parse : String → Option RagTask
  pub id_at : ℕ → String
  pub batch_id : ℕ → String

-- The router with the latency tracker of the worker, which the two share.
abbrev pub router_of : ModelRouter → LatencyTracker → ModelRouter
router_of router tracker = record router { latency_tracker = some tracker }

abbrev pub request_of : RagTask → InferenceRequest
request_of task = record {
  prompt = task.prompt;
  context = task.context;
  event_type = task.event_type;
  priority = task.priority;
  requested_model = task.requested_model;
}

-- The candidate for a task, a decision and a request id; `model_dump` has a timestamp and no metadata.
abbrev pub candidate_for : RagTask → RoutingDecision → String → BatchCandidate
candidate_for task d request_id = record {
  request_id = request_id;
  prompt = task.prompt;
  context = task.context;
  model_name = d.model_name;
  event_type = task.event_type;
  priority = task.priority;
  estimated_tokens = d.estimated_tokens;
  batchable = d.batchable;
  raw_payload = record { timestamp = some task.timestamp; metadata = none };
}

module _ (intake : Intake) where
  -- `task.event_id or f"task-{...}"`
  unfoldable pub id_of : RagTask → Action String
  id_of task = elim (truthy task.event_id) [
    | some id ↦ pure id
    | none ↦ (do instant ← now; pure (intake.id_at instant))
  ]

  unfoldable pub task_to_batch_candidate : RagTask → Action BatchCandidate
  unfolding id_of
  task_to_batch_candidate task w =
      elim (route (router_of intake.router w.latency_tracker) (request_of task)) [
        | raised e ↦ raise e w
        | ok d ↦ (do id ← id_of task; pure (candidate_for task d id)) w
      ]

  -- The body of the loop over the messages, up to the exceptions that it catches.
  unfoldable pub normalize : Message → Action (Option BatchCandidate)
  unfolding task_to_batch_candidate
  normalize message w = elim message.body [
    | none ↦ (health_error >> pure none) w
    | some body ↦ elim (intake.parse body) [
      | none ↦ (health_error >> pure none) w
      | some task ↦
          let o = task_to_batch_candidate task w in
          elim o.result [
            | ok c ↦ pure (some c) o.after
            | raised e ↦ (health_error >> pure none) o.after
          ]
    ]
  ]

  -- The loop over the messages, with the candidates and the receipt handles found before.
  unfoldable pub collect_messages :
      List Message
      → List BatchCandidate
      → Dict String String
      → Action (List BatchCandidate × Dict String String)
  collect_messages [] cs receipts = pure (cs, receipts)
  collect_messages (m ∷ ms) cs receipts = normalize m >>= λ found. elim found [
    | none ↦ collect_messages ms cs receipts
    | some c ↦ collect_messages ms (cs ++ c ∷ []) (Dict.put receipts c.request_id m.receipt_handle)
  ]

  -- `[self.process_batch(batch, ...) for batch in batches]`, and whether all succeeded.
  unfoldable pub run_batches : Dict String String → (index : ℕ) → List InferenceBatch → Action Bool
  run_batches receipts index [] = pure true
  run_batches receipts index (b ∷ bs) = do
    good ← process_batch intake.env receipts (intake.batch_id index) b
    rest ← run_batches receipts (suc index) bs
    pure (if good then rest else false)

  -- What follows the normalization.
  unfoldable pub run_candidates : List BatchCandidate × Dict String String → Action Bool
  run_candidates ([], receipts) = pure false
  run_candidates (c ∷ cs, receipts) = elim (build_batches intake.policy (c ∷ cs)) [
    | raised e ↦ raise e
    | ok batches ↦ run_batches receipts 0 batches
  ]

  unfoldable pub process_messages : List Message → Action Bool
  process_messages messages = collect_messages messages [] [] >>= run_candidates
