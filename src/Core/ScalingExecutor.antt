-- ===== src/Core/ScalingExecutor.antt =====
-- core/scaling_executor.py: the execution of scaling decisions. The call of the cloud service is the
-- argument `call`, which says whether it returns; the second component of what an executor returns is
-- the list of the counts that it asked for.
pub mod Laws
use ai_inference_project.Common.{ℕ, Bool, true, false, List, [], ◌∷◌}
use ai_inference_project.Core.Autoscaler.{ScalingDecision, hold}

-- `LogOnlyExecutor.execute`
unfoldable pub log_only : ScalingDecision → Bool × List ℕ
log_only d = (true, [])

-- `EcsScalingExecutor.execute` and `AsgScalingExecutor.execute`, which differ in the service called.
unfoldable pub execute : (call : ℕ → Bool) → ScalingDecision → Bool × List ℕ
execute call d = elim d.action [
  | hold ↦ (true, [])
  | _ ↦ (call d.desired_workers, d.desired_workers ∷ [])
]
