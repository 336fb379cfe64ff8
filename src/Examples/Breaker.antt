-- ===== src/Examples/Breaker.antt =====
-- The circuit breaker and the autoscaler on concrete inputs.
use ai_inference_project.Common.{All, ◌≡◌, inl, refl, String, true, false, [], ◌∷◌, map, arith}
use ai_inference_project.Inference.CircuitBreaker.{
  CircuitBreaker, CircuitBreakerPolicy, opened, half_open, new_breaker, allow_request,
}
use ai_inference_project.Inference.CircuitBreaker.Laws.{IsValid}
use ai_inference_project.Inference.CircuitBreaker.Runs.{
  allows, succeeds, fails, resets, run, run-IsValid, run-fails, run-allows_stuck,
}
use ai_inference_project.Core.Autoscaler.{
  Autoscaler, ClusterState, ScalingReason, hold, evaluate, scale_workers_up, is_in_cooldown,
}
use ai_inference_project.Core.ScalingExecutor.{execute}
use ai_inference_project.Core.ScalingExecutor.Laws.{IsStep, execute-evaluate}
use ai_inference_project.Core.Autoscaler.Laws.{IsBounded, evaluate_lem, evaluate-cooldown}

abbrev policy : CircuitBreakerPolicy
policy = record { failure_threshold = 2; recovery_timeout = 30; half_open_max_probes = 1 }

abbrev probing : CircuitBreaker
probing = record {
  policy = policy;
  state = half_open;
  failure_count = 2;
  last_failure_time = 7;
  half_open_probes = 1;
}

run-IsValid_example :
    IsValid
      (run (fails 5 ∷ fails 6 ∷ allows 40 ∷ succeeds ∷ fails 41 ∷ resets ∷ []) (new_breaker policy))
run-IsValid_example =
    run-IsValid policy (fails 5 ∷ fails 6 ∷ allows 40 ∷ succeeds ∷ fails 41 ∷ resets ∷ [])
      (omega arith)

run-fails_example : (run (map fails (5 ∷ 6 ∷ 7 ∷ [])) (new_breaker policy)).state ≡ opened
unfolding new_breaker
run-fails_example = run-fails (5 ∷ 6 ∷ 7 ∷ []) (new_breaker policy) refl (omega arith)

run-allows_stuck_example :
    allow_request 1_000_000 (run (map allows (40 ∷ 90 ∷ 500 ∷ [])) probing) ≡ (probing, [], false)
run-allows_stuck_example =
    run-allows_stuck (40 ∷ 90 ∷ 500 ∷ []) 1_000_000 probing refl (omega arith)

abbrev scaler : Autoscaler
scaler = record {
  policy = record {
    min_workers = 1;
    max_workers = 3;
    target_queue_wait = 2000;
    target_utilization = 70;
    scale_up_threshold_deferrals = 2;
    scale_down_idle = 120;
    cooldown = 60;
    dry_run = true;
  };
  metrics = [];
  last_scale_time = 0;
}

abbrev busy : ClusterState
busy = record {
  current_workers = 2;
  avg_queue_wait = 5000;
  scheduling_deferrals = 0;
  idle = 0;
  utilization = 50;
}

abbrev render : ScalingReason → String
render reason = "reason"

evaluate_lem_example :
    let d = (evaluate render 101 100 busy scaler).0 in
    IsBounded scaler.policy 2 d.desired_workers d.action
evaluate_lem_example = evaluate_lem render 101 100 busy scaler (omega arith)

evaluate-cooldown_example :
    let after = (evaluate render 101 100 busy scaler).1 in
    let again = evaluate render 101 130 busy after in (again.0.action ≡ hold) × (again.1 ≡ after)
unfolding evaluate scale_workers_up is_in_cooldown
evaluate-cooldown_example =
    evaluate-cooldown render 101 100 130 busy busy scaler (inl refl) (omega arith)

execute-evaluate_example :
    All (IsStep 1 3 2) (execute (λ n. true) (evaluate render 101 100 busy scaler).0).1
execute-evaluate_example =
    execute-evaluate render (λ n. true) 100 101 busy scaler (omega arith) (omega arith)
