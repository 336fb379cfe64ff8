-- ===== src/Gateway/Api.antt =====
-- gateway/api.py: the router that the gateway builds, and its endpoints. The digest of a request,
-- SHA-256 over its JSON text, the queue's publisher and the random request id are arguments, and so
-- are the instant at which the tenant is checked and the text of the instant of acceptance.
pub mod Router
pub mod Laws
pub mod Slots
use Prim.Native.String.{◌++◌}
use ai_inference_project.Common.{
  ℕ, String, Bool, true, false, Option, none, some, List, [], ◌∷◌, length, map, leb, if◌then◌else◌,
  truthy, get_or, string_key, Exception, runtime_error, Result, ok, raised,
}
use ai_inference_project.Common as Common
use ai_inference_project.Common.Int.{ℤ}
use ai_inference_project.Common.Dict
use ai_inference_project.Common.Dict.{Dict}
use ai_inference_project.Core.Metrics.{Sink, emit, request_accepted}
use ai_inference_project.Core.Audit.{words, number, AuditEvent, AuditLog, record_event, get_trail}
use ai_inference_project.Core.ResultStore.{
  InferenceResult, ResultStore, pending, processing, scan_by_status,
}
use ai_inference_project.Core.ResultStore
use ai_inference_project.Gateway.Admission.{
  AdmissionPolicy, AdmissionDecision, SystemLoad, admit, disabled, check_load,
}
use ai_inference_project.Gateway.Auth.{AuthProvider, authenticate}
use ai_inference_project.Gateway.Tenant.{TenantPolicyEngine, check, extract_tenant}
use ai_inference_project.Inference.Router.{
  ModelRouter, RoutingDecision, RoutingReason, InferenceRequest, route, explicit_model_requested,
  context_too_large_for_small_model, complex_task_type, high_priority_request, default_small_model,
  fallback_default_model, latency_avoidance,
}

-- `InferenceGatewayRequest`
pub record GatewayRequest : Type 0 where
  pub prompt : String
  pub context : String
  pub event_type : String
  pub priority : ℤ
  pub requested_model : Option String
  pub metadata : Dict String String
  pub idempotency_key : Option String

-- `queue_payload`
pub record QueuePayload : Type 0 where
  pub event_id : String
  pub timestamp : String
  pub prompt : String
  pub context : String
  pub event_type : String
  pub priority : ℤ
  pub requested_model : String
  pub metadata : Dict String String
  pub routing : RoutingDecision
  pub idempotency_key : String

-- `InferenceGatewayResponse` with status 202, `HTTPException` with its status code and the
-- Retry-After header, and an exception that no handler catches.
pub data Response : Type 0 where
  accepted :
      (request_id accepted_at : String) → RoutingDecision → (idempotency_key : String) → Response
  refused : (status : ℕ) (retry_after : Option ℕ) → Response
  crashed : Exception → Response

-- What `create_app` is given, and stays as it is: `publish` is the queue's publisher, `digest` the
-- text that stands for a request without a key of its own.
pub record App : Type 0 where
  pub router : ModelRouter
  pub admission : AdmissionPolicy
  pub auth : AuthProvider
  pub publish : QueuePayload → Result (Unit {0})
  pub digest : GatewayRequest → String

-- What the endpoints change: `published` holds the payloads that the publisher took.
pub record Gateway : Type 0 where
  pub result_store : ResultStore
  pub metrics : Sink
  pub tenant_engine : TenantPolicyEngine
  pub audit : AuditLog
  pub published : List QueuePayload

-- What a submission brings with it from outside.
pub record Submission : Type 0 where
  pub authorization : Option String
  pub request : GatewayRequest
  pub request_id : String
  pub checked_at : ℕ
  pub accepted_at : String

-- `QueuePublisher.publish`, with the call `send` of the queue service.
unfoldable pub queue_publisher :
    (queue_url : String) (send : QueuePayload → Result (Unit {0}))
    → QueuePayload
    → Result (Unit {0})
queue_publisher queue_url send payload = elim (truthy (some queue_url)) [
  | none ↦ raised runtime_error
  | some url ↦ send payload
]

unfoldable pub derive_idempotency_key : App → GatewayRequest → String
derive_idempotency_key app request = get_or (truthy request.idempotency_key) (app.digest request)

-- `SystemLoad` as `submit_inference` fills it: the queue depth stays at its default.
unfoldable pub load_of : ResultStore → SystemLoad
load_of store = record {
  queue_depth = 0;
  pending_count = length (scan_by_status store pending);
  processing_count = length (scan_by_status store processing);
}

-- The Retry-After header: none for an absent number and for 0.
abbrev pub retry_header : Option ℕ → Option ℕ
retry_header none = none
retry_header (some seconds) = if leb 1 seconds then some seconds else none

-- `decision in (ADMIT, DISABLED)`
abbrev pub is_pass : AdmissionDecision → Bool
is_pass d = elim d [ admit ↦ true | disabled ↦ true | _ ↦ false ]

abbrev pub inference_request : GatewayRequest → InferenceRequest
inference_request r = record {
  prompt = r.prompt;
  context = r.context;
  event_type = r.event_type;
  priority = r.priority;
  requested_model = r.requested_model;
}

unfoldable pub payload_of : App → Submission → RoutingDecision → QueuePayload
unfolding derive_idempotency_key
payload_of app s d = record {
  event_id = s.request_id;
  timestamp = s.accepted_at;
  prompt = s.request.prompt;
  context = s.request.context;
  event_type = s.request.event_type;
  priority = s.request.priority;
  requested_model = d.model_name;
  metadata = s.request.metadata;
  routing = d;
  idempotency_key = derive_idempotency_key app s.request;
}

-- The record of a request that was enqueued.
abbrev pub pending_record : Submission → RoutingDecision → InferenceResult
pending_record s d = record {
  request_id = s.request_id;
  status = pending;
  accepted_at = s.accepted_at;
  completed_at = none;
  model_name = some d.model_name;
  result = none;
  error = none;
}

-- The tenant of a submission: the authenticated one, or else the metadata's.
unfoldable pub tenant_of : App → Submission → String
tenant_of app s =
    get_or (truthy (authenticate app.auth s.authorization).tenant_id)
      (extract_tenant s.request.metadata)

-- `RoutingReason.value`
abbrev pub reason_value : RoutingReason → String
reason_value explicit_model_requested = "explicit_model_requested"
reason_value context_too_large_for_small_model = "context_too_large_for_small_model"
reason_value complex_task_type = "complex_task_type"
reason_value high_priority_request = "high_priority_request"
reason_value default_small_model = "default_small_model"
reason_value fallback_default_model = "fallback_default_model"
reason_value latency_avoidance = "latency_avoidance"

-- After the publication: the record, the metric and the audit event.
unfoldable pub accept : App → Submission → RoutingDecision → Gateway → Response × Gateway
unfolding derive_idempotency_key tenant_of
accept app s d g = (
  accepted s.request_id s.accepted_at d (derive_idempotency_key app s.request),
  record g {
    result_store = ResultStore.put (pending_record s d) g.result_store;
    metrics =
        emit (request_accepted s.request_id d.model_name s.request.event_type d.estimated_tokens)
          g.metrics;
    audit =
        record_event
          (record {
            request_id = s.request_id;
            event = "accepted";
            component = "gateway";
            detail =
                ("model", words (some d.model_name))
                ∷ ("reason", words (some (reason_value d.reason)))
                ∷ ("estimated_tokens", number d.estimated_tokens)
                ∷ ("event_type", words (some s.request.event_type))
                ∷ ("tenant", words (some (tenant_of app s)))
                ∷ [];
          })
          g.audit;
  },
)

-- The routing and the publication.
unfoldable pub enqueue : App → Submission → Gateway → Response × Gateway
unfolding payload_of
enqueue app s g = elim (route app.router (inference_request s.request)) [
  | raised e ↦ (crashed e, g)
  | ok d ↦
      let payload = payload_of app s d in
      elim (app.publish payload) [
        | raised e ↦ (refused 503 none, g)
        | ok _ ↦ accept app s d (record g { published = Common.◌++◌ g.published (payload ∷ []) })
      ]
]

-- The tenant check.
unfoldable pub charge : App → Submission → (tenant_id : String) → Gateway → Response × Gateway
charge app s tenant_id g =
    let (engine, events, result) =
      check tenant_id s.request.priority s.checked_at g.tenant_engine in
    let charged = record g { tenant_engine = engine; metrics = Common.◌++◌ g.metrics events } in
    elim result [
      | raised e ↦ (crashed e, charged)
      | ok r ↦
          if r.allowed
          then enqueue app s charged
          else (refused 429 (retry_header r.retry_after_seconds), charged)
    ]

-- `submit_inference`
unfoldable pub submit : App → Submission → Gateway → Response × Gateway
unfolding load_of
submit app s g =
    let (result, events) = check_load app.admission (load_of g.result_store) in
    let seen = record g { metrics = Common.◌++◌ g.metrics events } in
    if (authenticate app.auth s.authorization).authenticated
    then (if is_pass result.decision
        then charge app s (tenant_of app s) seen
        else (refused 429 (retry_header result.retry_after_seconds), seen))
    else (refused 401 none, g)

-- `get_inference_result`, which answers 404 where there is no record.
unfoldable pub get_inference_result : Gateway → String → Option InferenceResult
get_inference_result g request_id = ResultStore.get g.result_store request_id

-- `get_audit_trail`, which answers 404 where the trail is empty.
unfoldable pub get_audit_trail : Gateway → String → Option (List AuditEvent)
get_audit_trail g request_id = elim (get_trail g.audit request_id) [
  | [] ↦ none
  | e ∷ rest ↦ some (e ∷ rest)
]

-- What `/health` shows of the state, with whether a queue is configured.
pub record Health : Type 0 where
  pub queue_configured : Bool
  pub models : List String
  pub pending_requests : ℕ
  pub processing_requests : ℕ
  pub admission_enabled : Bool
  pub max_queue_depth : ℕ

unfoldable pub health : (queue_url : String) → App → Gateway → Health
health queue_url app g = record {
  queue_configured = is_some (truthy (some queue_url));
  models = map (λ p. p.0) app.router.profiles;
  pending_requests = length (scan_by_status g.result_store pending);
  processing_requests = length (scan_by_status g.result_store processing);
  admission_enabled = app.admission.enabled;
  max_queue_depth = app.admission.max_queue_depth;
}
  where
    is_some : Option String → Bool
    is_some none = false
    is_some (some text) = true
