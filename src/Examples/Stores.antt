-- ===== src/Examples/Stores.antt =====
-- The stores, the age limit, the priority queue and the reconciliation on concrete inputs.
use ai_inference_project.Common.{
  ◌↔◌, ◌≢◌, max, ◌≡◌, refl, true, false, some, none, [], ◌∷◌, drop, take, string_key, ok,
}
use ai_inference_project.Common.Dict
use ai_inference_project.Core.Audit.{AuditEvent}
use ai_inference_project.Core.ResultStore.{
  InferenceResult, ResultStore, pending, processing, completed, scan_by_status, same_status,
}
use ai_inference_project.Core.ResultStore
use ai_inference_project.Core.ResultStore.Items.{to_item, of_item, of_item-to_item}
use ai_inference_project.Core.Ttl.{Calendar}
use ai_inference_project.Core.PriorityQueue.{PriorityInferenceQueue, get_batch}
use ai_inference_project.Core.PriorityQueue.Laws.{contents, get_batch_lem}
use ai_inference_project.Core.Reconciliation.{
  Services, ReconciliationConfig, Engine, aware, run_once,
}
use ai_inference_project.Core.Reconciliation.DryRun.{run_once-dry}
use ai_inference_project.Core.Reconciliation.Laws.{run_once-keeps}

abbrev finished : InferenceResult
finished = record {
  request_id = "r1";
  status = completed;
  accepted_at = "t";
  completed_at = some "t";
  model_name = some "small";
  result = some "";
  error = none;
}

abbrev waiting : InferenceResult
waiting = record finished {
  request_id = "r2";
  status = pending;
  completed_at = none;
  result = none;
}

abbrev store : ResultStore
store = ("r1", finished) ∷ ("r2", waiting) ∷ []

of_item-to_item_example :
    ((of_item (to_item 1000 7 finished) ≡ ok finished) ↔ (
      (finished.completed_at ≢ some "")
      × (finished.model_name ≢ some "")
      × (finished.result ≢ some "")
      × (finished.error ≢ some "")))
    × ((r : InferenceResult) × (of_item (to_item 1000 7 finished) ≡ ok r)
        × (r.status ≡ finished.status))
of_item-to_item_example = of_item-to_item 1000 7 finished

abbrev event : AuditEvent
event = record { request_id = "r1"; event = "completed"; component = "worker"; detail = [] }

-- A calendar whose texts all stand for one instant.
abbrev calendar : Calendar
calendar = record { fromisoformat = λ text. some 5; isoformat = λ t. "t" }

abbrev queue : PriorityInferenceQueue
queue = record { high_lane = "a" ∷ []; normal_lane = "b" ∷ "c" ∷ []; low_lane = "d" ∷ [] }

get_batch_lem_example :
    ((get_batch 2 [] queue).0 ≡ take (max 2 1) (contents queue))
    × (contents (get_batch 2 [] queue).1 ≡ drop (max 2 1) (contents queue))
get_batch_lem_example = get_batch_lem 2 queue

abbrev pub services : Services
services = record {
  fromisoformat = λ text. some (aware 5);
  isoformat = λ t. "now";
  pending_reason = "Stuck in pending";
  processing_reason = "Stuck in processing";
  queue_publisher = none;
  bedrock_analyzer = none;
  analysis_error = λ e. "Analysis unavailable";
  sns_publisher = none;
}

abbrev pub config : ReconciliationConfig
config = record {
  stale_pending_timeout = 10;
  stale_processing_timeout = 10;
  dry_run_enabled = false;
  heal_enabled = true;
  bedrock_analysis_enabled = false;
  sns_notification_enabled = false;
}

abbrev pub stuck : Engine
stuck = record { result_store = store; published = []; clock = λ n. 100; reads = 0 }

run_once-keeps_example :
    ResultStore.get (run_once services config stuck).1.result_store "r1" ≡ some finished
unfolding ResultStore.get Dict.get
run_once-keeps_example =
    run_once-keeps services config "r1" finished stuck (refl, (refl, tt), (refl, tt, tt)) refl refl

abbrev dry : ReconciliationConfig
dry = record config { dry_run_enabled = true }

run_once-dry_example :
    let after = (run_once services dry stuck).1 in
    (after.result_store ≡ store) × (after.published ≡ [])
run_once-dry_example = run_once-dry services dry refl stuck
