-- ===== src/Gateway/Admission.antt =====
-- gateway/admission.py: the admission of requests by the load of the system. A check returns the
-- metric event that it emits, if any; the texts of reasons are replaced by what they show.
pub mod Laws
use ai_inference_project.Common.{
  ℕ, String, Bool, true, false, Option, none, some, List, [], ◌∷◌, leb, if◌then◌else◌,
}
use ai_inference_project.Core.Metrics.{MetricEvent, request_rejected}

pub record AdmissionPolicy : Type 0 where
  pub max_queue_depth : ℕ
  pub max_pending_requests : ℕ
  pub max_processing_requests : ℕ
  pub enabled : Bool

pub data AdmissionDecision : Type 0 where
  admit reject_queue_depth reject_pending reject_processing disabled : AdmissionDecision

-- `AdmissionDecision.value`
abbrev pub decision_value : AdmissionDecision → String
decision_value admit = "admit"
decision_value reject_queue_depth = "reject_queue_depth"
decision_value reject_pending = "reject_pending"
decision_value reject_processing = "reject_processing"
decision_value disabled = "disabled"

-- The observed number and the limit that the text of a reason shows, where it shows them.
pub record AdmissionResult : Type 0 where
  pub decision : AdmissionDecision
  pub shown : Option (ℕ × ℕ)
  pub retry_after_seconds : Option ℕ

pub record SystemLoad : Type 0 where
  pub queue_depth : ℕ
  pub pending_count : ℕ
  pub processing_count : ℕ

-- A rejection, with the event of `_log_and_metric`.
abbrev pub reject :
    AdmissionDecision → (observed limit retry : ℕ) → AdmissionResult × List MetricEvent
reject d observed limit retry = (
  record { decision = d; shown = some (observed, limit); retry_after_seconds = some retry },
  request_rejected (decision_value d) ∷ [],
)

abbrev pub pass : AdmissionDecision → AdmissionResult × List MetricEvent
pass d = (record { decision = d; shown = none; retry_after_seconds = none }, [])

-- `AdmissionController.check`
unfoldable pub check_load : AdmissionPolicy → SystemLoad → AdmissionResult × List MetricEvent
check_load p load =
    if p.enabled
    then (if leb p.max_queue_depth load.queue_depth
        then reject reject_queue_depth load.queue_depth p.max_queue_depth 10
        else if leb p.max_pending_requests load.pending_count
        then reject reject_pending load.pending_count p.max_pending_requests 5
        else if leb p.max_processing_requests load.processing_count
        then reject reject_processing load.processing_count p.max_processing_requests 15
        else pass admit)
    else pass disabled
