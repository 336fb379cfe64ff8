-- ===== src/Examples/Gateway.antt =====
-- The gateway's endpoint, its authentication, and the sink that both sides share, on concrete inputs.
use Prim.Native.String.{◌++◌}
use ai_inference_project.Common.{
  ℕ, ◌+◌, ◌≡◌, refl, String, Bool, true, false, Option, some, none, List, [], ◌∷◌, if◌then◌else◌,
  get_or, truthy, filter, string_key, length, arith, ok,
}
use ai_inference_project.Common as Common
use mathlib.Core.List.{mem-cons_self}
use ai_inference_project.Common.{inl}
use ai_inference_project.Core.ResultStore.{InferenceResult, pending, scan_by_status}
use ai_inference_project.Core.ResultStore
use ai_inference_project.Gateway.Admission.{check_load}
use ai_inference_project.Gateway.Tenant.{check, decide, prune, state_of, get_policy, boosted}
use ai_inference_project.Common.Int.{pos}
use ai_inference_project.Common.Dict
use ai_inference_project.Core.Audit.{in_memory}
use ai_inference_project.Core.Metrics.{
  MetricEvent, inference_completed, inference_failed, queue_wait_time,
}
use ai_inference_project.Core.Metrics.Prometheus.{
  emit_all, new_sink, new_histogram, latency_buckets,
}
use ai_inference_project.Core.Metrics.Prometheus.Histograms.{Summarizes}
use ai_inference_project.Core.Metrics.Prometheus.Totals.{
  durations, failures, worker_requests, worker_durations, emit_all-totals,
}
use ai_inference_project.Gateway.Auth.{no_auth, api_keys, authenticate, lowers_to}
use ai_inference_project.Gateway.Auth.Laws.{is_some, authenticate_lem}
use ai_inference_project.Gateway.Api.{
  App, Submission, Gateway, QueuePayload, accepted, payload_of, submit, tenant_of,
  inference_request, get_inference_result, load_of, charge, enqueue, accept, derive_idempotency_key,
}
use ai_inference_project.Gateway.Api.Laws.{Explains, submit_lem}
use ai_inference_project.Gateway.Api.Slots.{active, is_charged, submit-active}
use ai_inference_project.Gateway.Api.Router.{two_router, two_profiles-ok}
use ai_inference_project.Inference.Router.{RoutingDecision, route}
use ai_inference_project.Inference.Router.Routes.{route_lem}
use ai_inference_project.Worker.Loop.{Turn, value, run}
use ai_inference_project.Worker.Loop.Places.{IsServed, Places}
use ai_inference_project.Worker.Loop.Handles.{IsTerminal}
use ai_inference_project.Platform.{task_of, IsDelivered, submit-run}
use ai_inference_project.Examples.Batches.{worker, env-IsUp}
use ai_inference_project.Examples.Intake.{intake, intake_routes, two_placed}

abbrev app : App
app = record {
  router = two_router "small" "large" 4096 32768 none;
  admission = record {
    max_queue_depth = 100;
    max_pending_requests = 50;
    max_processing_requests = 20;
    enabled = true;
  };
  auth = no_auth;
  publish = λ payload. ok tt;
  digest = λ request. "digest";
}

abbrev submission : Submission
submission = record {
  authorization = none;
  request = record {
    prompt = "Why?";
    context = "";
    event_type = "general_inference";
    priority = pos 5;
    requested_model = none;
    metadata = ("tenant", "a") ∷ [];
    idempotency_key = none;
  };
  request_id = "r1";
  checked_at = 10;
  accepted_at = "t";
}

abbrev gateway : Gateway
gateway = record {
  result_store = [];
  metrics = [];
  tenant_engine = record {
    default_policy = record {
      max_requests_per_minute = 2;
      max_concurrent = 1;
      priority_boost = pos 0;
    };
    policies = [];
    states = [];
  };
  audit = in_memory [];
  published = [];
}

submit_lem_example : Explains app submission [] [] (in_memory []) (submit app submission gateway)
submit_lem_example = submit_lem app submission gateway

decision : (d : RoutingDecision) × (route app.router (inference_request submission.request) ≡ ok d)
decision =
    let (d, _, routes, _) =
      route_lem _ "small" none app.router (inference_request submission.request)
        (two_profiles-ok "small" "large" 4096 32768 none) in
    (d, routes)

submit-active_example :
    let (response, g') = submit app submission gateway in
    let a = tenant_of app submission in
    (active g'.tenant_engine a
      ≡ active gateway.tenant_engine a + (if is_charged response then 1 else 0))
submit-active_example = submit-active app submission decision.0 decision.1 gateway

abbrev keys : Dict.Dict String String
keys = ("k", "a") ∷ []

authenticate_lem_example :
    let r = authenticate (api_keys keys) (some ("BEARER" ++ (" " ++ "k"))) in
    (r.tenant_id ≡ (if lowers_to "BEARER" "bearer" then Dict.get keys "k" else none))
    × (r.authenticated ≡ is_some r.tenant_id)
authenticate_lem_example = authenticate_lem keys "BEARER" "k" refl

abbrev events : List MetricEvent
events =
    inference_completed "r1" "small" 12
    ∷ inference_failed "r2" "small" "error"
    ∷ queue_wait_time "r3" 40
    ∷ inference_completed "r3" "small" 80
    ∷ inference_completed "r4" "large" 900
    ∷ []

emit_all-totals_example :
    let s = emit_all events new_sink in
    (worker_requests s "completed" "small" ≡ length (durations "small" events))
    × (worker_requests s "failed" "small" ≡ failures "small" events)
    × Summarizes
        (durations "small" events)
        (get_or (worker_durations s "small") (new_histogram latency_buckets))
emit_all-totals_example = emit_all-totals "small" events

abbrev encode : QueuePayload → String
encode payload = "payload"

submitted : (submit app submission gateway).0 ≡ accepted "r1" "t" decision.0 "digest"
unfolding submit load_of scan_by_status check_load authenticate charge check decide prune state_of
    get_policy boosted enqueue accept payload_of derive_idempotency_key Dict.get Dict.values filter
submitted = ground (arith, decision.1)

abbrev turn : Turn
turn = record {
  stopping = false;
  switch = value "true";
  received = ok (record { body = some "payload"; receipt_handle = "h1" } ∷ []);
  stopping_late = false;
  intake = record intake { parse = λ body. some (task_of (payload_of app submission decision.0)) };
}

turn-IsServed : IsServed turn
unfolding lowers_to payload_of
turn-IsServed = record {
  up = env-IsUp;
  routes = intake_routes;
  policy = record { size = omega arith; tokens = omega arith };
  single = refl;
  addressed = (record { named = ("r1", refl); stamped = ("t", refl) }, tt);
}

turn-Places : Places turn
unfolding lowers_to payload_of
turn-Places b sound routed few = two_placed b routed (omega (arith, few))

delivered : IsDelivered encode (payload_of app submission decision.0) (turn ∷ [])
unfolding lowers_to
delivered =
    (refl, inl (record { body = some "payload"; receipt_handle = "h1" }, mem-cons_self, refl, refl))

submit-run_example :
    let g' = (submit app submission gateway).1 in
    (g'.published ≡ Common.◌++◌ gateway.published (payload_of app submission decision.0 ∷ []))
    × ((r : InferenceResult) × (get_inference_result g' "r1" ≡ some r)
        × (r.request_id ≡ "r1")
        × (r.status ≡ pending)
        × (r.result ≡ none)
        × (r.error ≡ none))
    × ((run (turn ∷ []) worker).result ≡ ok tt)
    × ((r : InferenceResult) × (ResultStore.get (run (turn ∷ []) worker).after.result_store "r1"
          ≡ some r)
        × IsTerminal r)
submit-run_example =
    submit-run encode app submission gateway "t" "digest" decision.0 (turn ∷ []) worker refl
      submitted (turn-IsServed, tt) (turn-Places, tt) delivered
