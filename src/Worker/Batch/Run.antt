-- ===== src/Worker/Batch/Run.antt =====
-- The run of a whole batch, with a model server that answers for each request that it is given.
use ai_inference_project.Common.{
  ◌+◌, ◌≡◌, inl, inr, refl, sym, ap, ◌∙◌, String, Bool, true, false, Bool-cases, List, [], ◌∷◌, map,
  All, if◌then◌else◌, string_key, beq_refl, arith, length, ok, raised, not, ◌&&◌,
}
use ai_inference_project.Common.Dict.{Dict}
use ai_inference_project.Inference.Adapter.{InferenceInput, InferenceOutput}
use ai_inference_project.Inference.Batching.{BatchCandidate, InferenceBatch}
use ai_inference_project.Core.Metrics.{scheduling_decision}
use ai_inference_project.Inference.CircuitBreaker
use ai_inference_project.Inference.GpuScheduler.{GpuDeviceSnapshot, schedule, is_scheduled}
use ai_inference_project.Worker.{Worker}
use ai_inference_project.Worker.Actions.{Outcome, now, breaker_allows, emit_metric, health_error}
use ai_inference_project.Worker.Batch.{
  Environment, keep_live, mark_processing, call_server, infer_live, run_batch, run_scheduled,
  process_batch,
}
use ai_inference_project.Core.ResultStore
use ai_inference_project.Worker.Batch.Records.{
  Settles, Settles-refl, Settles-then, Settles-over, Settles-hit, Settles-at, IsEnded,
}
use ai_inference_project.Worker.Batch.Outputs.{
  IsReady, Deletes, has_id, is_in, all_succeed, handle_outputs-done,
}
use ai_inference_project.Worker.Batch.Gates.{fail_fast-done, keep_live-done, mark_processing-done}

-- The model server answers every call, with outputs for exactly the requests that it is given.
abbrev pub Answers : Environment → Type 0
Answers env =
    (model : String) (inputs : List InferenceInput)
    → (outputs : List InferenceOutput) × (env.infer_batch model inputs ≡ ok outputs)
      × ((x : String)
          → is_in (map (λ o. o.request_id) outputs) x ≡ is_in (map (λ i. i.request_id) inputs) x)

All-is_in :
    (os : List InferenceOutput) (ys : List String)
    → ((x : String) → is_in (map (λ o. o.request_id) os) x ≡ true → is_in ys x ≡ true)
    → All (λ o. is_in ys o.request_id ≡ true) os
All-is_in [] ys h = tt
All-is_in (o ∷ os) ys h =
    (h o.request_id (rw beq_refl refl), All-is_in os ys (λ x e. h x (rw e ground arith)))

-- The inputs for the model server.
abbrev inputs_of : List BatchCandidate → List InferenceInput
inputs_of = map (λ c. record { request_id = c.request_id; prompt = c.prompt; context = c.context })

ids_of_inputs :
    (cs : List BatchCandidate) → map (λ i. i.request_id) (inputs_of cs) ≡ map (λ c. c.request_id) cs
ids_of_inputs [] = refl
ids_of_inputs (c ∷ cs) = ap (λ ys. c.request_id ∷ ys) (ids_of_inputs cs)

-- What the worker calls is up: the model server answers, SQS deletes, and the devices can be observed
-- where they are asked for.
pub record IsUp (env : Environment) : Type 0 where
  pub answers : Answers env
  pub deletes : Deletes env
  pub observes :
      env.gpu_scheduling_enabled ≡ true
      → (devices : List GpuDeviceSnapshot) × (env.gpu_snapshots ≡ ok devices)

-- Scheduling is off, or the scheduler places the batch on the devices that are observed.
abbrev pub is_placed : Environment → InferenceBatch → Bool
is_placed env b =
    if env.gpu_scheduling_enabled
    then elim env.gpu_snapshots [
      | raised e ↦ false
      | ok devices ↦
          is_scheduled (schedule env.gpu_scheduler b.model_name devices (length b.candidates))
    ]
    else true

-- The circuit breaker of the worker refuses at the next reading of the clock.
abbrev pub is_shut : Worker → Bool
is_shut w = not (CircuitBreaker.allow_request (w.clock w.reads) w.circuit_breaker).2

module _ (env : Environment) (messages : Dict String String) (model batch_id : String) where
  -- From the store of `w` to that of `o`: the requests that are hit end, and the others are kept.
  abbrev pub Leaves : (shut : Bool) → (String → Bool) → Worker → Outcome Bool → Type 0
  Leaves shut hit w o =
      (b : Bool) × (o.result ≡ ok b)
      × ((x : String)
          → Settles (IsEnded env model shut) (hit x) (ResultStore.get w.result_store x)
              (ResultStore.get o.after.result_store x))

  -- With a server that answers, the inference over live requests returns, and leaves them ended.
  infer_live-done :
      (live : List BatchCandidate) (w : Worker)
      → IsUp env
      → All (IsReady messages) live
      → Leaves false (has_id live) w (infer_live env messages model batch_id live w)
  unfolding infer_live now call_server
  infer_live-done [] w up h = (true, refl, λ x. Settles-refl _)
  infer_live-done (c ∷ cs) w up h =
      let t = env.calendar.isoformat (w.clock w.reads) in
      let w1 = (now w).after in
      let (marked, before) = mark_processing-done env messages model batch_id t (c ∷ cs) w1 h in
      let w2 = (mark_processing env messages model batch_id t (c ∷ cs) w1).after in
      let (os, called, same) = up.answers model (inputs_of (c ∷ cs)) in
      let ids = λ (y : String). same y ∙ ap (λ ys. is_in ys y) (ids_of_inputs (c ∷ cs)) in
      let (rest, later) =
        handle_outputs-done env messages model batch_id t (c ∷ cs) os w2 up.deletes h
          (All-is_in os (map (λ c. c.request_id) (c ∷ cs)) (λ y e. sym (ids y) ∙ e))
          (λ o m. record {
            inputs = inputs_of (c ∷ cs);
            outputs = os;
            called = called;
            given = m;
          }) in
      (
        all_succeed os,
        ground (arith, marked, called, rest),
        λ x.
            Settles-at (ground (arith, marked, called, rest))
              (Settles-over (before x) (Settles-hit (ids x) (later x))),
      )

  -- Running a batch returns: where the circuit breaker is shut, all of its requests are refused, and
  -- otherwise they end; the other requests are kept.
  pub run_batch-done :
      (cs : List BatchCandidate) (w : Worker)
      → IsUp env
      → All (IsReady messages) cs
      → Leaves (is_shut w) (has_id cs) w (run_batch env messages model batch_id cs w)
  unfolding run_batch now breaker_allows
  run_batch-done cs w up h =
      let w1 = (now w).after in
      let gate = breaker_allows (w.clock w.reads) w1 in
      let allowed = (CircuitBreaker.allow_request (w.clock w.reads) w.circuit_breaker).2 in
      let w2 = (now gate.after).after in
      let t = env.calendar.isoformat (w.clock (w.reads + 1)) in
      elim (Bool-cases allowed) [
        | inl passes ↦
            let lets : is_shut w ≡ false = ground (arith, passes) in
            let (live, kept, ready, before) =
              keep_live-done env messages model batch_id t cs w2 up.deletes h in
            let w3 = (keep_live env messages model batch_id t cs w2).after in
            let (b, inferred, later) = infer_live-done live w3 up ready in
            (
              b,
              ground (arith, passes, kept, inferred),
              λ x.
                  let (hit, same, s) = before x in
                  rw lets (
                    Settles-at (ground (arith, passes, kept, inferred))
                      (Settles-hit same (Settles-then s (later x)))),
            )
        | inr bars ↦
            let closed : is_shut w ≡ true = ground (arith, bars) in
            let (returns, later) = fail_fast-done env messages model t cs w2 h in
            (
              false,
              ground (arith, bars, returns),
              λ x. rw closed (Settles-at (ground (arith, bars, returns)) (later x)),
            )
      ]

pub process_batch-done :
    (env : Environment) (messages : Dict String String) (batch_id : String) (batch : InferenceBatch)
    (w : Worker)
    → IsUp env
    → All (IsReady messages) batch.candidates
    → let o = process_batch env messages batch_id batch w in
      (b : Bool) × (o.result ≡ ok b)
      × ((x : String)
          → Settles
              (IsEnded env batch.model_name (is_shut w))
              (is_placed env batch && has_id batch.candidates x)
              (ResultStore.get w.result_store x)
              (ResultStore.get o.after.result_store x))
unfolding process_batch run_scheduled emit_metric health_error
process_batch-done env messages batch_id batch w up h =
    elim (Bool-cases env.gpu_scheduling_enabled) [
      | inl on ↦
          let (devices, observed) = up.observes on in
          let d = schedule env.gpu_scheduler batch.model_name devices (length batch.candidates) in
          elim (Bool-cases (is_scheduled d)) [
            | inl placed ↦
                let w' =
                  (emit_metric
                    (scheduling_decision batch_id batch.model_name (is_scheduled d) d.device_id
                      d.reason)
                    w).after in
                let (b, returns, done) =
                  run_batch-done env messages batch.model_name batch_id batch.candidates w' up h in
                (
                  b,
                  ground (arith, on, observed, placed, returns),
                  λ x.
                      Settles-hit (ground (arith, on, observed, placed))
                        (Settles-at (ground (arith, on, observed, placed, returns)) (done x)),
                )
            | inr unplaced ↦ (
              false,
              ground (arith, on, observed, unplaced),
              λ x.
                  Settles-hit (ground (arith, on, observed, unplaced))
                    (Settles-at (ground (arith, on, observed, unplaced)) (Settles-refl _)),
            )
          ]
      | inr off ↦
          let (b, returns, done) =
            run_batch-done env messages batch.model_name batch_id batch.candidates w up h in
          (
            b,
            ground (arith, off, returns),
            λ x.
                Settles-hit (ground (arith, off))
                  (Settles-at (ground (arith, off, returns)) (done x)),
          )
    ]
