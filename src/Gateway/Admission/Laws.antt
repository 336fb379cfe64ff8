-- ===== src/Gateway/Admission/Laws.antt =====
-- When the admission controller admits, and what it shows of a rejection.
use ai_inference_project.Common.{◌<◌, ◌≡◌, ◌↔◌, ◌⊎◌, Bool, true, false, none, [], arith}
use ai_inference_project.Gateway.Admission.{
  AdmissionPolicy, AdmissionResult, SystemLoad, admit, disabled, check_load,
}

-- The decision lets the request in.
abbrev pub lets_in : AdmissionResult → Bool
lets_in r = elim r.decision [ admit ↦ true | disabled ↦ true | _ ↦ false ]

-- The controller lets a request in exactly when it is off, or the queue depth, the pending and the
-- processing requests are all below their limits. It emits an event, and asks to retry later,
-- exactly when it does not let the request in.
pub check_load_lem :
    (p : AdmissionPolicy) (load : SystemLoad)
    → let (r, events) = check_load p load in
      ((lets_in r ≡ true) ↔ (
        (p.enabled ≡ false)
        ⊎ ((load.queue_depth < p.max_queue_depth)
            × (load.pending_count < p.max_pending_requests)
            × (load.processing_count < p.max_processing_requests))))
      × ((lets_in r ≡ true) ↔ (events ≡ []))
      × ((lets_in r ≡ true) ↔ (r.retry_after_seconds ≡ none))
unfolding check_load
check_load_lem p load = (
  (λ h. ground arith, λ h. ground arith),
  (λ h. ground arith, λ h. ground arith),
  (λ h. ground arith, λ h. ground arith),
)
