-- ===== src/Core/Autoscaler/Laws.antt =====
-- The autoscaler's bounds and its cooldown.
use ai_inference_project.Common.{ℕ, ◌+◌, ◌≤◌, ◌<◌, ◌≡◌, String, ◌⊎◌, arith}
use ai_inference_project.Core.Autoscaler.{
  Autoscaler, AutoscalingPolicy, ClusterState, ScalingAction, ScalingReason, scale_up, scale_down,
  hold, is_in_cooldown, record_decision, scale_workers_up, scale_workers_down, evaluate,
}

-- The step from `current` to `desired` workers that the action stands for, within the policy.
abbrev pub IsBounded : AutoscalingPolicy → (current desired : ℕ) → ScalingAction → Type 0
IsBounded p current desired scale_up = (desired ≡ current + 1) × (desired ≤ p.max_workers)
IsBounded p current desired scale_down = (desired + 1 ≡ current) × (p.min_workers ≤ desired)
IsBounded p current desired hold = (desired ≡ current) × (current ≤ p.max_workers)

module _ (render : ScalingReason → String) (later : ℕ) where
  -- From a number of workers that is not above the maximum, the decision is to add one worker and
  -- not exceed the maximum, to remove one and not go below the minimum, or to keep the number.
  pub evaluate_lem :
      (now : ℕ) (state : ClusterState) (s : Autoscaler)
      → state.current_workers ≤ s.policy.max_workers
      → let d = (evaluate render later now state s).0 in
        IsBounded s.policy state.current_workers d.desired_workers d.action
  unfolding evaluate scale_workers_up scale_workers_down
  evaluate_lem now state s h = ground arith

  -- Once a decision other than to hold was recorded at `later`, every evaluation before the
  -- cooldown has passed holds, and changes nothing.
  pub evaluate-cooldown :
      (now next : ℕ) (state state' : ClusterState) (s : Autoscaler)
      → let (d, after) = evaluate render later now state s in
        ((d.action ≡ scale_up) ⊎ (d.action ≡ scale_down))
        → next < later + s.policy.cooldown
        → let again = evaluate render later next state' after in
          (again.0.action ≡ hold) × (again.1 ≡ after)
  unfolding evaluate scale_workers_up scale_workers_down is_in_cooldown record_decision
  evaluate-cooldown now next state state' s h k = ground arith
