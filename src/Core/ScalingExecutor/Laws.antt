-- ===== src/Core/ScalingExecutor/Laws.antt =====
-- The autoscaler and an executor together.
use ai_inference_project.Common.{
  ℕ, ◌+◌, ◌≤◌, ◌≡◌, ◌⊎◌, inl, inr, String, Bool, List, [], ◌∷◌, All, arith,
}
use ai_inference_project.Core.Autoscaler.{
  Autoscaler, ClusterState, ScalingDecision, ScalingReason, scale_up, scale_down, hold, evaluate,
}
use ai_inference_project.Core.Autoscaler.Laws.{IsBounded, evaluate_lem}
use ai_inference_project.Core.ScalingExecutor.{execute}

-- A number of workers within the limits of the policy, one away from `current`.
pub record IsStep (low high current n : ℕ) : Type 0 where
  pub above : low ≤ n
  pub below : n ≤ high
  pub near : (n ≡ current + 1) ⊎ (n + 1 ≡ current)

execute_bounded :
    (call : ℕ → Bool) (s : Autoscaler) (d : ScalingDecision) (current : ℕ)
    → s.policy.min_workers ≤ current
    → current ≤ s.policy.max_workers
    → IsBounded s.policy current d.desired_workers d.action
    → All (IsStep s.policy.min_workers s.policy.max_workers current) (execute call d).1
unfolding execute
execute_bounded call s d current h k b =
    elim d.action
        as (λ a.
          IsBounded s.policy current d.desired_workers a
          → All (IsStep s.policy.min_workers s.policy.max_workers current)
              (elim a as (λ _. Bool × List ℕ) [
                | hold ↦ (_, [])
                | _ ↦ (call d.desired_workers, d.desired_workers ∷ [])
              ]).1) [
                | scale_up ↦
                    λ e. (record { above = omega (arith, e.0); below = e.1; near = inl e.0 }, tt)
                | scale_down ↦
                    λ e. (record { above = e.1; below = omega (arith, e.0); near = inr e.0 }, tt)
                | hold ↦ λ e. tt
              ]
      b

-- With the number of workers within the policy's limits, whatever the autoscaler decides, each count
-- that the executor asks the service for is within the limits too, and one away from that number.
pub execute-evaluate :
    (render : ScalingReason → String) (call : ℕ → Bool) (now later : ℕ) (state : ClusterState)
    (s : Autoscaler)
    → s.policy.min_workers ≤ state.current_workers
    → state.current_workers ≤ s.policy.max_workers
    → All
        (IsStep s.policy.min_workers s.policy.max_workers state.current_workers)
        (execute call (evaluate render later now state s).0).1
execute-evaluate render call now later state s h k =
    execute_bounded call s (evaluate render later now state s).0 state.current_workers h k
      (evaluate_lem render later now state s k)
