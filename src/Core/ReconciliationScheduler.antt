-- ===== src/Core/ReconciliationScheduler.antt =====
-- core/reconciliation_scheduler.py: the passes that the scheduler's thread makes. Each turn of its
-- loop is given whether the stop event is set when the turn begins; the pauses and the log are not
-- modelled.
pub mod Laws
use ai_inference_project.Common.{
  ℕ, suc, ◌+◌, Bool, true, false, not, ◌&&◌, List, [], ◌∷◌, length, filter, if◌then◌else◌, ok,
  raised,
}
use ai_inference_project.Core.Metrics.{Sink, emit, reconciliation_pass}
use ai_inference_project.Core.Reconciliation.{
  ReconciliationConfig, ReconciliationAction, resubmit, mark_failed, notify, skip,
  ReconciliationEvent, Services, Engine, run_once,
}

pub record ReconciliationScheduler : Type 0 where
  pub engine : Engine
  pub metrics : Sink
  pub stop_event : Bool
  pub running : Bool
  pub pass_count : ℕ

-- `start`
unfoldable pub start : ReconciliationScheduler → ReconciliationScheduler
start s = if s.running then s else record s { stop_event = false; running = true }

-- `stop`, up to the wait for the thread.
unfoldable pub stop : ReconciliationScheduler → ReconciliationScheduler
stop s = record s { stop_event = true }

-- `e.action.value != "skip"`
abbrev pub acts : ReconciliationAction → Bool
acts skip = false
acts _ = true

-- `e.action.value == "mark_failed"`
abbrev pub fails : ReconciliationAction → Bool
fails mark_failed = true
fails _ = false

-- What the sums of `_loop` count.
abbrev pub is_healed : ReconciliationEvent → Bool
is_healed e = not e.dry_run && acts e.action

abbrev pub is_failed : ReconciliationEvent → Bool
is_failed e = fails e.action && not e.dry_run

module _ (env : Services) (config : ReconciliationConfig) where
  -- The `try` block of a turn; an exception of the pass is logged.
  unfoldable pub one_pass : ReconciliationScheduler → ReconciliationScheduler
  one_pass s =
      let (answer, engine) = run_once env config s.engine in
      elim answer [
        | raised e ↦ record s { engine = engine }
        | ok events ↦ record s {
          engine = engine;
          pass_count = s.pass_count + 1;
          metrics =
              emit
                (reconciliation_pass (length events) (length (filter is_healed events))
                  (length (filter is_failed events)) (length (filter (λ e. e.notified) events)))
                s.metrics;
        }
      ]

  -- `_loop`, over the states of the stop event: the thread ends at the first turn where it is set.
  unfoldable pub loop : List Bool → ReconciliationScheduler → ReconciliationScheduler
  loop [] s = s
  loop (stops ∷ turns) s = if stops then record s { running = false } else loop turns (one_pass s)
