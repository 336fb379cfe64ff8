-- ===== src/Core/Autoscaler.antt =====
-- core/autoscaler.py: the scaling decisions. Seconds, milliseconds and percents are natural numbers
-- of some unit, and the text of a reason is rendered by the argument `render`. A reading of the
-- clock is an argument: `now` in `_in_cooldown`, `later` in `_record`.
pub mod Laws
use ai_inference_project.Common.{
  ℕ, ◌+◌, ◌-◌, min, max, String, Bool, true, false, List, leb, ltb, nat_beq, if◌then◌else◌,
}
use ai_inference_project.Core.Metrics.{Sink, emit, scaling_decided}

pub record AutoscalingPolicy : Type 0 where
  pub min_workers : ℕ
  pub max_workers : ℕ
  pub target_queue_wait : ℕ
  pub target_utilization : ℕ
  pub scale_up_threshold_deferrals : ℕ
  pub scale_down_idle : ℕ
  pub cooldown : ℕ
  pub dry_run : Bool

pub data ScalingAction : Type 0 where
  scale_up scale_down hold : ScalingAction

-- The reasons, with the numbers that their texts show.
pub data ScalingReason : Type 0 where
  in_cooldown within_targets : ScalingReason
  queue_wait deferrals utilization idle : (observed target : ℕ) → ScalingReason
  at_max at_min : ℕ → ScalingReason

pub record ScalingDecision : Type 0 where
  pub action : ScalingAction
  pub reason : ScalingReason
  pub current_workers : ℕ
  pub desired_workers : ℕ
  pub dry_run : Bool

pub record ClusterState : Type 0 where
  pub current_workers : ℕ
  pub avg_queue_wait : ℕ
  pub scheduling_deferrals : ℕ
  pub idle : ℕ
  pub utilization : ℕ

pub record Autoscaler : Type 0 where
  pub policy : AutoscalingPolicy
  pub metrics : Sink
  pub last_scale_time : ℕ

abbrev action_value : ScalingAction → String
action_value scale_up = "scale_up"
action_value scale_down = "scale_down"
action_value hold = "hold"

unfoldable pub is_in_cooldown : ℕ → Autoscaler → Bool
is_in_cooldown now s = ltb now (s.last_scale_time + s.policy.cooldown)

module _ (render : ScalingReason → String) (later : ℕ) where
  -- `_record`
  unfoldable pub record_decision : ScalingDecision → Autoscaler → Autoscaler
  record_decision d s = record s {
    last_scale_time = later;
    metrics =
        emit
          (scaling_decided (action_value d.action) (render d.reason) d.current_workers
            d.desired_workers d.dry_run)
          s.metrics;
  }

  -- A decision to change nothing.
  abbrev pub stay : ScalingReason → ClusterState → Autoscaler → ScalingDecision × Autoscaler
  stay reason state s = (
    record {
      action = hold;
      reason = reason;
      current_workers = state.current_workers;
      desired_workers = state.current_workers;
      dry_run = s.policy.dry_run;
    },
    s,
  )

  -- A decision to change the number of workers, recorded.
  abbrev pub change :
      ScalingAction
      → ScalingReason
      → (desired : ℕ) → ClusterState
      → Autoscaler
      → ScalingDecision × Autoscaler
  change action reason desired state s =
      let d : ScalingDecision = record {
        action = action;
        reason = reason;
        current_workers = state.current_workers;
        desired_workers = desired;
        dry_run = s.policy.dry_run;
      } in
      (d, record_decision d s)

  -- `_scale_up`
  unfoldable pub scale_workers_up :
      ScalingReason → ClusterState → Autoscaler → ScalingDecision × Autoscaler
  scale_workers_up reason state s =
      let desired = min (state.current_workers + 1) s.policy.max_workers in
      if nat_beq desired state.current_workers
      then stay (at_max s.policy.max_workers) state s
      else change scale_up reason desired state s

  -- `_scale_down`, called with at least one worker.
  unfoldable pub scale_workers_down :
      ScalingReason → ClusterState → Autoscaler → ScalingDecision × Autoscaler
  scale_workers_down reason state s =
      let desired = max (state.current_workers - 1) s.policy.min_workers in
      if nat_beq desired state.current_workers
      then stay (at_min s.policy.min_workers) state s
      else change scale_down reason desired state s

  unfoldable pub evaluate : (now : ℕ) → ClusterState → Autoscaler → ScalingDecision × Autoscaler
  unfolding is_in_cooldown
  evaluate now state s =
      let p = s.policy in
      if is_in_cooldown now s
      then stay in_cooldown state s
      else if ltb p.target_queue_wait state.avg_queue_wait
      then scale_workers_up (queue_wait state.avg_queue_wait p.target_queue_wait) state s
      else if leb p.scale_up_threshold_deferrals state.scheduling_deferrals
      then scale_workers_up (deferrals state.scheduling_deferrals p.scale_up_threshold_deferrals)
          state s
      else if ltb p.target_utilization state.utilization
      then scale_workers_up (utilization state.utilization p.target_utilization) state s
      else if ltb p.scale_down_idle state.idle
      then (if ltb p.min_workers state.current_workers
          then scale_workers_down (idle state.idle p.scale_down_idle) state s
          else stay within_targets state s)
      else stay within_targets state s
