-- ===== src/Worker/Actions.antt =====
-- Actions on a worker: an exception keeps what was done before it, as in Python. Beside them stand
-- the calls of the other components on the parts of the worker's state.
use ai_inference_project.Common.{
  ℕ, ◌+◌, String, Bool, none, some, [], ◌∷◌, ◌++◌, string_key, Exception, Result, ok, raised,
}
use ai_inference_project.Common.Dict.{Dict}
use ai_inference_project.Core.Metrics.{MetricEvent, emit}
use ai_inference_project.Core.Audit.{AuditEvent, record_event}
use ai_inference_project.Core.ResultStore.{InferenceResult}
use ai_inference_project.Core.ResultStore
use ai_inference_project.Inference.CircuitBreaker
use ai_inference_project.Inference.Latency.{record_duration}
use ai_inference_project.Gateway.Tenant.{release, extract_tenant}
use ai_inference_project.Worker.{Worker, record_success, record_error}

pub record Outcome {ℓ} (A : Type ℓ) : Type ℓ where
  pub result : Result A
  pub after : Worker

abbrev pub Action {ℓ} : Type ℓ → Type ℓ
Action A = Worker → Outcome A

abbrev pub pure {ℓ} : {A : Type ℓ} → A → Action A
pure a w = record { result = ok a; after = w }

abbrev pub raise {ℓ} : {A : Type ℓ} → Exception → Action A
raise e w = record { result = raised e; after = w }

abbrev pub continue {ℓ κ} : {A : Type ℓ} {B : Type κ} → (A → Action B) → Outcome A → Outcome B
continue f o = elim o.result [
  | ok a ↦ f a o.after
  | raised e ↦ record { result = raised e; after = o.after }
]

infixl 5 ◌>>=◌ ◌>>◌
abbrev pub ◌>>=◌ {ℓ κ} : {A : Type ℓ} {B : Type κ} → Action A → (A → Action B) → Action B
◌>>=◌ m f w = continue f (m w)

abbrev pub ◌>>◌ {ℓ} : {B : Type ℓ} → Action (Unit {0}) → Action B → Action B
m >> k = m >>= λ _. k

-- A change of the state alone.
abbrev pub modify : (Worker → Worker) → Action (Unit {0})
modify f w = record { result = ok tt; after = f w }

-- The next reading of the clock.
unfoldable pub now : Action ℕ
now w = record { result = ok (w.clock w.reads); after = record w { reads = w.reads + 1 } }

unfoldable pub put_result : InferenceResult → Action (Unit {0})
put_result r = modify (λ w. record w { result_store = ResultStore.put r w.result_store })

unfoldable pub emit_metric : MetricEvent → Action (Unit {0})
emit_metric event = modify (λ w. record w { metrics = emit event w.metrics })

unfoldable pub record_audit : AuditEvent → Action (Unit {0})
record_audit event = modify (λ w. record w { audit = record_event event w.audit })

-- `self.sqs.delete_message`, with what SQS answers.
unfoldable pub delete_message : Result (Unit {0}) → String → Action (Unit {0})
delete_message (raised e) receipt_handle w = raise e w
delete_message (ok u) receipt_handle w =
    pure tt (record w { deleted = w.deleted ++ receipt_handle ∷ [] })

unfoldable pub health_success : Action (Unit {0})
health_success = modify (λ w. record w { health = record_success w.health })

unfoldable pub health_error : Action (Unit {0})
health_error = modify (λ w. record w { health = record_error w.health })

-- The circuit breaker's operations, with the metric events that they emit.
unfoldable pub breaker_allows : ℕ → Action Bool
breaker_allows t w =
    let (b, events, allowed) = CircuitBreaker.allow_request t w.circuit_breaker in
    record {
      result = ok allowed;
      after = record w { circuit_breaker = b; metrics = w.metrics ++ events };
    }

unfoldable pub breaker_success : Action (Unit {0})
breaker_success = modify (λ w.
    let (b, events) = CircuitBreaker.record_success w.circuit_breaker in
    record w { circuit_breaker = b; metrics = w.metrics ++ events })

unfoldable pub breaker_failure : ℕ → Action (Unit {0})
breaker_failure t = modify (λ w.
    let (b, events) = CircuitBreaker.record_failure t w.circuit_breaker in
    record w { circuit_breaker = b; metrics = w.metrics ++ events })

unfoldable pub record_latency : String → ℕ → Action (Unit {0})
record_latency model duration_ms =
    modify (λ w. record w { latency_tracker = record_duration model duration_ms w.latency_tracker })

-- `_release_tenant`
unfoldable pub release_tenant : Dict String String → Action (Unit {0})
release_tenant metadata = modify (λ w. record w {
  tenant_engine = elim w.tenant_engine [
    | none ↦ none
    | some engine ↦ some (release (extract_tenant metadata) engine)
  ];
})
