-- ===== src/Worker/Batch.antt =====
-- `RAGWorker.process_batch`. The model server, Python's `datetime`, what `get_gpu_snapshots` returns
-- or raises and what SQS answers to a deletion are arguments; so is the map from request ids to the
-- receipt handles of the messages. The log and failures of the result store are not modelled.
pub mod Records
pub mod Gates
pub mod Outputs
pub mod Run
pub mod Server
pub mod Tenants
use ai_inference_project.Common.{
  ℕ, String, Bool, true, false, not, Option, none, some, List, [], ◌∷◌, map, get_or, if◌then◌else◌,
  ◌==◌, string_key, truthy, length, Result, ok, raised, key_error, stop_iteration, validation_error,
}
use ai_inference_project.Common.Dict
use ai_inference_project.Common.Dict.{Dict}
use ai_inference_project.Core.Metrics.{
  inference_started, inference_completed, inference_failed, scheduling_decision,
}
use ai_inference_project.Core.Audit.{words, number}
use ai_inference_project.Core.ResultStore.{
  InferenceResult, RequestStatus, processing, completed, failed,
}
use ai_inference_project.Core.Ttl.{Calendar, is_expired}
use ai_inference_project.Inference.Adapter.{InferenceInput, InferenceOutput, success}
use ai_inference_project.Inference.Batching.{BatchCandidate, RawPayload, InferenceBatch}
use ai_inference_project.Inference.GpuScheduler.{
  GpuScheduler, GpuDeviceSnapshot, SchedulingDecision, schedule, is_scheduled,
}
use ai_inference_project.Worker.Actions.{
  Action, pure, raise, ◌>>=◌, ◌>>◌, now, put_result, emit_metric, record_audit, delete_message,
  health_success, health_error, breaker_allows, breaker_success, breaker_failure, record_latency,
  release_tenant,
}

-- What the worker is configured with and what it calls: `expiry_error` is the formatted text of an
-- expired request.
pub record Environment : Type 0 where
  pub calendar : Calendar
  pub gpu_scheduling_enabled : Bool
  pub gpu_scheduler : GpuScheduler
  pub gpu_snapshots : Result (List GpuDeviceSnapshot)
  pub max_age : ℕ
  pub expiry_error : String
  pub infer_batch : String → List InferenceInput → Result (List InferenceOutput)
  pub delete_message : String → Result (Unit {0})

-- `raw.get("timestamp", default)`, which may be `None`.
abbrev pub timestamp_or : RawPayload → String → Option String
timestamp_or raw default = get_or raw.timestamp (some default)

-- `raw.get("metadata", {})`
abbrev pub metadata_of : BatchCandidate → Dict String String
metadata_of c = get_or c.raw_payload.metadata []

-- The validation of `InferenceResult.accepted_at`, which must be a text.
unfoldable pub validated : Option String → Action String
validated none = raise validation_error
validated (some text) = pure text

-- `messages_by_request_id[request_id]["ReceiptHandle"]`
unfoldable pub receipt_of : Dict String String → String → Action String
receipt_of messages request_id = elim (Dict.get messages request_id) [
  | none ↦ raise key_error
  | some receipt ↦ pure receipt
]

-- The record of a request at the end of its processing.
abbrev pub ended :
    (request_id : String)
    → RequestStatus
    → (accepted_at completed_at model : String) → (result error : Option String) → InferenceResult
ended request_id status accepted_at completed_at model result error = record {
  request_id = request_id;
  status = status;
  accepted_at = accepted_at;
  completed_at = some completed_at;
  model_name = some model;
  result = result;
  error = error;
}

-- A request that the open circuit breaker refuses, with the text `t` of the instant.
unfoldable pub refuse : (model t : String) → BatchCandidate → Action (Unit {0})
unfolding validated
refuse model t c = do
  accepted_at ← validated (timestamp_or c.raw_payload t)
  put_result (
      ended c.request_id failed accepted_at t model none
        (some "Circuit breaker open — downstream unavailable"))
  emit_metric (inference_failed c.request_id model "circuit_breaker_open")
  release_tenant (metadata_of c)

-- The loop behind the circuit breaker's refusal.
unfoldable pub fail_fast : (model t : String) → List BatchCandidate → Action (Unit {0})
fail_fast model t [] = pure tt
fail_fast model t (c ∷ cs) = refuse model t c >> fail_fast model t cs

module _ (env : Environment) (messages : Dict String String) (model batch_id : String) where
  -- The TTL check of one request: whether it is live.
  unfoldable pub check_ttl : (t : String) → BatchCandidate → Action Bool
  unfolding validated receipt_of
  check_ttl t c = do
    instant ← now
    let accepted = timestamp_or c.raw_payload ""
    if is_expired env.calendar env.max_age instant accepted
        then (do
          accepted_at ← validated accepted
          put_result (ended c.request_id failed accepted_at t model none (some env.expiry_error))
          emit_metric (inference_failed c.request_id model "ttl_expired")
          record_audit (record {
            request_id = c.request_id;
            event = "expired";
            component = "worker";
            detail = ("max_age_seconds", number env.max_age) ∷ [];
          })
          release_tenant (metadata_of c)
          receipt ← receipt_of messages c.request_id
          delete_message (env.delete_message receipt) receipt
          pure false)
        else pure true

  -- The loop of the TTL check.
  unfoldable pub keep_live : (t : String) → List BatchCandidate → Action (List BatchCandidate)
  keep_live t [] = pure []
  keep_live t (c ∷ cs) = do
    live ← check_ttl t c
    rest ← keep_live t cs
    pure (if live then c ∷ rest else rest)

  -- A live request, with the text `t` of the instant.
  unfoldable pub mark : (t : String) → BatchCandidate → Action (Unit {0})
  unfolding validated
  mark t c = do
    accepted_at ← validated (timestamp_or c.raw_payload t)
    put_result (record {
      request_id = c.request_id;
      status = processing;
      accepted_at = accepted_at;
      completed_at = none;
      model_name = some model;
      result = none;
      error = none;
    })
    emit_metric (inference_started c.request_id model batch_id)

  -- The loop that marks the live requests.
  unfoldable pub mark_processing : (t : String) → List BatchCandidate → Action (Unit {0})
  mark_processing t [] = pure tt
  mark_processing t (c ∷ cs) = mark t c >> mark_processing t cs

  -- `next(c for c in live_candidates if c.request_id == request_id)`
  unfoldable pub candidate_of : List BatchCandidate → String → Action BatchCandidate
  candidate_of [] request_id = raise stop_iteration
  candidate_of (c ∷ cs) request_id =
      if c.request_id == request_id then pure c else candidate_of cs request_id

  -- A request that the model server answered.
  unfoldable pub complete : (accepted_at : String) → InferenceOutput → Action (Unit {0})
  unfolding receipt_of
  complete accepted_at o = do
    instant ← now
    put_result (
        ended o.request_id completed accepted_at (env.calendar.isoformat instant) model o.text none)
    emit_metric (inference_completed o.request_id model o.duration_ms)
    record_latency model o.duration_ms
    receipt ← receipt_of messages o.request_id
    delete_message (env.delete_message receipt) receipt
    health_success
    record_audit (record {
      request_id = o.request_id;
      event = "completed";
      component = "worker";
      detail =
          ("model", words (some model))
          ∷ ("batch_id", words (some batch_id))
          ∷ ("duration_ms", number o.duration_ms)
          ∷ [];
    })

  -- A request that it did not answer.
  unfoldable pub fail : (accepted_at : String) → InferenceOutput → Action (Unit {0})
  fail accepted_at o = do
    instant ← now
    put_result (
        ended o.request_id failed accepted_at (env.calendar.isoformat instant) model none
          (some (get_or (truthy o.error) "Inference failed")))
    emit_metric (inference_failed o.request_id model (get_or (truthy o.error) "unknown"))
    health_error
    record_audit (record {
      request_id = o.request_id;
      event = "failed";
      component = "worker";
      detail =
          ("model", words (some model))
          ∷ ("batch_id", words (some batch_id))
          ∷ ("error", words o.error)
          ∷ [];
    })

  -- One round of the loop over the outputs.
  unfoldable pub handle_output :
      (t : String) → List BatchCandidate → InferenceOutput → Action (Unit {0})
  unfolding validated
  handle_output t live o = do
    c ← candidate_of live o.request_id
    if success o
        then (do
          breaker_success
          accepted_at ← validated (timestamp_or c.raw_payload t)
          complete accepted_at o)
        else (do
          instant ← now
          breaker_failure instant
          accepted_at ← validated (timestamp_or c.raw_payload t)
          fail accepted_at o)
    release_tenant (metadata_of c)

  -- The loop over the outputs: whether all succeeded.
  unfoldable pub handle_outputs :
      (t : String) → List BatchCandidate → List InferenceOutput → Action Bool
  handle_outputs t live [] = pure true
  handle_outputs t live (o ∷ os) = do
    handle_output t live o
    rest ← handle_outputs t live os
    pure (if success o then rest else false)

  -- The call of the model server.
  unfoldable pub call_server : List BatchCandidate → Action (List InferenceOutput)
  call_server live =
      elim (env.infer_batch model (
        map (λ c. record { request_id = c.request_id; prompt = c.prompt; context = c.context })
          live)) [ ok outputs ↦ pure outputs | raised e ↦ raise e ]

  -- What follows once some request is live.
  unfoldable pub infer_live : List BatchCandidate → Action Bool
  infer_live [] = pure true
  infer_live (c ∷ cs) = do
    instant ← now
    let t = env.calendar.isoformat instant
    mark_processing t (c ∷ cs)
    outputs ← call_server (c ∷ cs)
    handle_outputs t (c ∷ cs) outputs

  -- What follows the placement: the circuit breaker, the TTL check and the inference.
  unfoldable pub run_batch : List BatchCandidate → Action Bool
  run_batch candidates = do
    gate ← now
    allowed ← breaker_allows gate
    instant ← now
    let t = env.calendar.isoformat instant
    if allowed
        then (do live ← keep_live t candidates; infer_live live)
        else (do fail_fast model t candidates; pure false)

-- What follows the scheduler's decision.
unfoldable pub run_scheduled :
    Environment
    → Dict String String
    → (batch_id : String) → InferenceBatch
    → SchedulingDecision
    → Action Bool
run_scheduled env messages batch_id batch d = do
  emit_metric (scheduling_decision batch_id batch.model_name (is_scheduled d) d.device_id d.reason)
  if is_scheduled d
      then run_batch env messages batch.model_name batch_id batch.candidates
      else (do health_error; pure false)

unfoldable pub process_batch :
    Environment → Dict String String → (batch_id : String) → InferenceBatch → Action Bool
process_batch env messages batch_id batch =
    if env.gpu_scheduling_enabled
    then elim env.gpu_snapshots [
      | raised e ↦ raise e
      | ok devices ↦
          run_scheduled env messages batch_id batch
            (schedule env.gpu_scheduler batch.model_name devices (length batch.candidates))
    ]
    else run_batch env messages batch.model_name batch_id batch.candidates
