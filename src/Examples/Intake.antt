-- ===== src/Examples/Intake.antt =====
-- The worker's intake, its main loop and its set-up on concrete inputs.
use ai_inference_project.Common.{
  get_elem?, ℕ, ◌≡◌, ◌≢◌, ◌↔◌, ◌≤◌, refl, inl, inr, Bool-cases, subst, length, String, Bool, true,
  false, Option, some, none, List, [], ◌∷◌, map, All, Perm, string_key, nat_key, if◌then◌else◌,
  ◌==◌, arith, ok, raised, runtime_error,
}
use ai_inference_project.Common.Int.{pos}
use ai_inference_project.Examples.Batches.{config, env, env-IsUp, worker}
use ai_inference_project.Core.ResultStore
use ai_inference_project.Worker.Batch.Records.{Settles}
use ai_inference_project.Worker.Batch.Run.{is_placed}
use ai_inference_project.Inference.Adapter.{InferenceInput}
use ai_inference_project.Inference.Adapter.Vllm.{
  Client, infer_single, infer_batch, infer_batch_lem, position, are_distinct,
}
use ai_inference_project.Common.Sort.{IsAscending}
use mathlib.Core.List.Perm
use ai_inference_project.Inference.Batching.{BatchCandidate, InferenceBatch}
use ai_inference_project.Inference.Batching.Split.{IsSound, flat}
use ai_inference_project.Inference.GpuScheduler.{
  free_memory_mb, GpuScheduler, GpuDeviceSnapshot, schedule, is_scheduled, rejected,
}
use ai_inference_project.Inference.GpuScheduler.Laws.{HasCapacity}
use ai_inference_project.Inference.Router.{ModelRouter, RoutingDecision, route}
use ai_inference_project.Worker.Batch.Outputs.{has_id, is_in}
use ai_inference_project.Worker.Batch.Run.{Answers}
use ai_inference_project.Worker.Batch.Server.{with_vllm, with_vllm-Answers}
use ai_inference_project.Worker.Messages.{
  RagTask, Message, Intake, process_messages, router_of, request_of,
}
use ai_inference_project.Worker.Messages.Collect.{tasks, own_id, IsRouted, AlwaysRoutes}
use ai_inference_project.Worker.{Worker}
use ai_inference_project.Worker.Batch.Tenants.{held}
use ai_inference_project.Worker.Messages.Tenants.{process_messages-held}
use ai_inference_project.Worker.Messages.Done.{Leaves, placed, process_messages-done}
use ai_inference_project.Worker.Setup.{
  initialize_model_router, initialize_gpu_scheduler, get_gpu_snapshots, scheduling_policy,
  small_model, snapshot,
}
use ai_inference_project.Worker.Setup.Placement.{
  resources_of, scheduler_for, router_for, routed-is_scheduled, initialize-places,
  router_for-AlwaysRoutes,
}
use ai_inference_project.Worker.Single.{
  Completions, perform_inference, perform_inference_with_model, routed_answer,
}
use ai_inference_project.Worker.Single.Retries.{
  Ends, perform_inference-Ends, perform_inference_with_model-perform_inference,
}
use ai_inference_project.Gateway.Auth.{lowers_to}
use ai_inference_project.Worker.Loop.{Turn, value, client_error, run}
use ai_inference_project.Worker.Loop.Places.{asked, IsServed, Places}
use ai_inference_project.Worker.Loop.Handles.{IsTerminal}
use ai_inference_project.Worker.Loop.Runs.{is_on, run-kept, run-done, run-off}

abbrev question : RagTask
question = record {
  prompt = "Why?";
  context = "";
  event_type = "general_inference";
  event_id = some "r1";
  timestamp = some "t";
  priority = pos 5;
  requested_model = none;
}

abbrev parse : String → Option RagTask
parse body = if body == "question" then some question else none

abbrev pub router : ModelRouter
router = router_for config worker.latency_tracker

pub intake_routes : AlwaysRoutes router
intake_routes = router_for-AlwaysRoutes config worker.latency_tracker

abbrev pub intake : Intake
intake = record {
  env = env;
  router = router;
  policy = record {
    max_batch_size = 4;
    max_batch_tokens = 12000;
    high_priority_threshold = pos 2;
    allow_single_item_batches = true;
  };
  parse = parse;
  id_at = λ instant. "task";
  batch_id = λ index. "batch";
}

abbrev messages : List Message
messages =
    record { body = none; receipt_handle = "h0" }
    ∷ record { body = some "nonsense"; receipt_handle = "h1" }
    ∷ record { body = some "question"; receipt_handle = "h2" }
    ∷ []

process_messages-done_example :
    let o = process_messages intake messages worker in
    (cs : List BatchCandidate) × (bs : List InferenceBatch) × (b : Bool) × (o.result ≡ ok b)
    × (map (λ c. c.request_id) cs ≡ map own_id (tasks parse messages))
    × All (λ c. IsRouted router c.model_name) cs
    × Perm (flat bs) cs
    × All (IsSound intake.policy) bs
    × Leaves env (has_id (placed env bs)) worker o
process_messages-done_example =
    process_messages-done intake env-IsUp messages worker intake_routes
      (record { size = omega arith; tokens = omega arith }) refl
      (record { named = ("r1", refl); stamped = ("t", refl) }, tt)

abbrev turn : Turn
turn = record {
  stopping = false;
  switch = value "True";
  received = ok messages;
  stopping_late = false;
  intake = intake;
}

abbrev late : Turn
late = record turn { stopping = true }

turn-IsServed : IsServed turn
unfolding lowers_to
turn-IsServed = record {
  up = env-IsUp;
  routes = intake_routes;
  policy = record { size = omega arith; tokens = omega arith };
  single = refl;
  addressed = (record { named = ("r1", refl); stamped = ("t", refl) }, tt);
}

late-IsServed : IsServed late
unfolding lowers_to
late-IsServed = record {
  up = env-IsUp;
  routes = intake_routes;
  policy = record { size = omega arith; tokens = omega arith };
  single = refl;
  addressed = (record { named = ("r1", refl); stamped = ("t", refl) }, tt);
}

-- The scheduler of the worker places batches of up to two requests.
pub two_placed :
    (b : InferenceBatch)
    → IsRouted router b.model_name
    → length b.candidates ≤ 2
    → is_placed env b ≡ true
unfolding free_memory_mb
two_placed b r few =
    subst
      (λ model.
        is_scheduled
          (schedule (scheduler_for config) model (snapshot config ∷ []) (length b.candidates))
        ≡ true)
      r.chooses
      (routed-is_scheduled config r.tracker r.request r.decision (length b.candidates) r.routes
        (elim (Bool-cases (small_model config == r.decision.model_name)) [
          | inl small ↦ ground (arith, small, few)
          | inr large ↦ ground (arith, large, few)
        ])
        (elim (Bool-cases (small_model config == r.decision.model_name)) [
          | inl small ↦ record {
            healthy = refl;
            memory = ground (arith, small);
            utilization = ground (arith, small);
          }
          | inr large ↦ record {
            healthy = refl;
            memory = ground (arith, large);
            utilization = ground (arith, large);
          }
        ]))

turn-Places : Places turn
unfolding lowers_to
turn-Places b sound routed few = two_placed b routed (omega (arith, few))

late-Places : Places late
unfolding lowers_to
late-Places b sound routed few = two_placed b routed (omega (arith, few))

run-kept_example :
    ((run (turn ∷ late ∷ []) worker).result ≡ ok tt)
    × ((x : String)
        → (hit : Bool) × (hit ≡ true → is_in (asked (turn ∷ late ∷ [])) x ≡ true)
          × Settles IsTerminal hit
              (ResultStore.get worker.result_store x)
              (ResultStore.get (run (turn ∷ late ∷ []) worker).after.result_store x))
run-kept_example = run-kept (turn ∷ late ∷ []) worker (turn-IsServed, (late-IsServed, tt))

run-done_example :
    Settles IsTerminal
      (is_in (asked (turn ∷ late ∷ [])) "r1")
      (ResultStore.get worker.result_store "r1")
      (ResultStore.get (run (turn ∷ late ∷ []) worker).after.result_store "r1")
run-done_example =
    run-done (turn ∷ late ∷ []) worker (turn-IsServed, (late-IsServed, tt))
      (turn-Places, (late-Places, tt)) "r1"

abbrev unreadable : Turn
unreadable = record turn { switch = client_error; received = raised runtime_error }

run-off_example :
    ((run (unreadable ∷ []) worker).result ≡ ok tt)
    × (All (λ t. is_on t.switch ≡ false) (unreadable ∷ [])
        → (run (unreadable ∷ []) worker).after
          ≡ record worker { health = (run (unreadable ∷ []) worker).after.health })
run-off_example = run-off (unreadable ∷ []) worker

-- A server that is down for the first attempt.
abbrev create : Completions
create attempt model task = if attempt == 0 then raised runtime_error else ok (some "because")

perform_inference-Ends_example :
    Ends
      (routed_answer create (router_of router worker.latency_tracker) question)
      0
      3
      worker
      (perform_inference 3 (some create) router question worker)
perform_inference-Ends_example = perform_inference-Ends 3 create router question worker

decision :
    (d : RoutingDecision) × (route (router_of router worker.latency_tracker) (request_of question)
      ≡ ok d)
decision = intake_routes worker.latency_tracker (request_of question)

perform_inference_with_model-perform_inference_example :
    perform_inference_with_model 3 (some create) question decision.0.model_name worker
    ≡ perform_inference 3 (some create) router question worker
perform_inference_with_model-perform_inference_example =
    perform_inference_with_model-perform_inference 3 (some create) router question worker decision.0
      decision.1

initialize-places_example :
    (r : ModelRouter) × (s : GpuScheduler) × (devices : List GpuDeviceSnapshot)
    × (d : RoutingDecision) × (initialize_model_router config worker.latency_tracker ≡ ok r)
    × (initialize_gpu_scheduler config ≡ ok s)
    × (get_gpu_snapshots config ≡ ok devices)
    × (route r (request_of question) ≡ ok d)
    × ((n : ℕ)
        → ((schedule s d.model_name devices n).status ≢ rejected)
          × ((is_scheduled (schedule s d.model_name devices n) ≡ true) ↔ (
              (n ≤ (resources_of config d.model_name).max_batch_size)
              × HasCapacity
                  (scheduling_policy config)
                  (resources_of config d.model_name)
                  (snapshot config))))
initialize-places_example =
    initialize-places config worker.latency_tracker (request_of question) (record {
      small_memory = omega arith;
      large_memory = omega arith;
      small_batch = omega arith;
      large_batch = omega arith;
      some_utilization = omega arith;
      within_utilization = omega arith;
      device_utilization = omega arith;
      device_memory = omega arith;
    })

-- A server that echoes, with threads that complete in the order of their submission.
abbrev client : Client
client = record {
  complete = λ model i. ok (some i.prompt);
  error_text = λ e. "error";
  duration_ms = λ i. 7;
  as_completed = λ os. os;
}

abbrev inputs : List InferenceInput
inputs =
    record { request_id = "r1"; prompt = "a"; context = "" }
    ∷ record { request_id = "r2"; prompt = "b"; context = "" }
    ∷ []

infer_batch_lem_example :
    Perm (infer_batch client "small" inputs) (map (infer_single client "small") inputs)
    × IsAscending (λ o p. position inputs o ≤ position inputs p) (infer_batch client "small" inputs)
    × (are_distinct inputs ≡ true
        → (n : ℕ) (i : InferenceInput) → get_elem? inputs n ≡ some i
        → position inputs (infer_single client "small" i) ≡ n)
infer_batch_lem_example = infer_batch_lem client "small" inputs (λ os. Perm.refl os)

with_vllm-Answers_example : Answers (with_vllm client env)
with_vllm-Answers_example = with_vllm-Answers client env (λ os. Perm.refl os)

-- A worker with a tenant that has a running request.
abbrev charged : Worker
charged = record worker {
  tenant_engine = some (record {
    default_policy = record {
      max_requests_per_minute = 2;
      max_concurrent = 1;
      priority_boost = pos 0;
    };
    policies = [];
    states = ("a", record { timestamps = 10 ∷ []; active_count = 1 }) ∷ [];
  });
}

process_messages-held_example :
    held (process_messages intake messages charged).after.tenant_engine "a"
    ≡ held charged.tenant_engine "a"
process_messages-held_example =
    process_messages-held intake "a" refl messages charged
      (record { size = omega arith; tokens = omega arith }) refl
