-- ===== src/Core/Reconciliation.antt =====
-- core/reconciliation.py: the engine that scans the result store for stale requests and heals them.
-- Instants and timeouts are microseconds. Python's `datetime`, the queue publisher, the Bedrock
-- analyzer and the SNS publisher are arguments; the log is not modelled.
pub mod Laws
pub mod DryRun
pub mod Keyed
use Prim.Native.String.{◌++◌ as append_text}
use ai_inference_project.Common.{
  ℕ, ◌+◌, String, Bool, true, false, not, Option, none, some, List, [], ◌∷◌, ◌++◌, ltb,
  if◌then◌else◌, Exception, type_error, Result, ok, raised,
}
use ai_inference_project.Core.ResultStore.{
  RequestStatus, pending, processing, completed, failed, InferenceResult, ResultStore,
  scan_by_status,
}
use ai_inference_project.Core.ResultStore

-- A parsed timestamp; without a time zone it cannot be subtracted from the present.
pub data Timestamp : Type 0 where
  aware : ℕ → Timestamp
  naive : Timestamp

pub record ReconciliationConfig : Type 0 where
  pub stale_pending_timeout : ℕ
  pub stale_processing_timeout : ℕ
  pub dry_run_enabled : Bool
  pub heal_enabled : Bool
  pub bedrock_analysis_enabled : Bool
  pub sns_notification_enabled : Bool

pub data ReconciliationAction : Type 0 where
  resubmit mark_failed notify skip : ReconciliationAction

pub record ReconciliationEvent : Type 0 where
  pub request_id : String
  pub previous_status : RequestStatus
  pub action : ReconciliationAction
  pub reason : String
  pub dry_run : Bool
  pub bedrock_analysis : Option String
  pub notified : Bool

-- The fields of the resubmitted message that depend on the record.
pub record Resubmission : Type 0 where
  pub event_id : String
  pub timestamp : String
  pub requested_model : Option String

-- `fromisoformat` is `none` for what raises, and the two reasons are the formatted texts.
pub record Services : Type 0 where
  pub fromisoformat : String → Option Timestamp
  pub isoformat : ℕ → String
  pub pending_reason : String
  pub processing_reason : String
  pub queue_publisher : Option (Resubmission → Result (Unit {0}))
  pub bedrock_analyzer : Option (InferenceResult → Result String)
  pub analysis_error : Exception → String
  pub sns_publisher : Option (ReconciliationEvent → InferenceResult → Result (Unit {0}))

-- What the engine changes and shares, with the readings of the clock and how many were taken.
pub record Engine : Type 0 where
  pub result_store : ResultStore
  pub published : List Resubmission
  pub clock : ℕ → ℕ
  pub reads : ℕ

module _ (env : Services) (config : ReconciliationConfig) where
  -- `_is_stale`: the clock is read only for a timestamp that was parsed.
  unfoldable pub is_stale : InferenceResult → Engine → Result Bool × Engine
  is_stale r s = elim (env.fromisoformat r.accepted_at) [
    | none ↦ (ok true, s)
    | some t ↦
        let read = record s { reads = s.reads + 1 } in
        elim t [
          | naive ↦ (raised type_error, read)
          | aware accepted ↦
              let now = s.clock s.reads in
              (
                ok (elim r.status [
                  | pending ↦ ltb (accepted + config.stale_pending_timeout) now
                  | processing ↦ ltb (accepted + config.stale_processing_timeout) now
                  | _ ↦ false
                ]),
                read,
              )
        ]
  ]

  -- The inner loop of the scan.
  unfoldable pub select_stale :
      List InferenceResult → Engine → Result (List InferenceResult) × Engine
  select_stale [] s = (ok [], s)
  select_stale (r ∷ rs) s =
      let (answer, s1) = is_stale r s in
      let rest = select_stale rs s1 in
      elim answer [
        | raised e ↦ (raised e, s1)
        | ok b ↦ elim rest.0 [
          | raised e ↦ (raised e, rest.1)
          | ok found ↦ (ok (if b then r ∷ found else found), rest.1)
        ]
      ]

  unfoldable pub decide_action : InferenceResult → ReconciliationEvent
  decide_action r = record {
    request_id = r.request_id;
    previous_status = r.status;
    action = elim r.status [ pending ↦ resubmit | processing ↦ mark_failed | _ ↦ skip ];
    reason = elim r.status [
      | pending ↦ env.pending_reason
      | processing ↦ env.processing_reason
      | _ ↦ "No action needed"
    ];
    dry_run = elim r.status [
      | pending ↦ config.dry_run_enabled
      | processing ↦ config.dry_run_enabled
      | _ ↦ false
    ];
    bedrock_analysis = none;
    notified = false;
  }

  -- `_mark_failed`, with the whole text of the error.
  unfoldable pub fail_record : InferenceResult → (error : String) → Engine → Engine
  fail_record r error s = record s {
    result_store =
        ResultStore.put
          (record {
            request_id = r.request_id;
            status = failed;
            accepted_at = r.accepted_at;
            completed_at = some (env.isoformat (s.clock s.reads));
            model_name = r.model_name;
            result = none;
            error = some error;
          })
          s.result_store;
    reads = s.reads + 1;
  }

  unfoldable pub execute_heal :
      ReconciliationEvent → InferenceResult → Engine → Result (Unit {0}) × Engine
  execute_heal event r s = elim event.action [
    | resubmit ↦ elim env.queue_publisher [
      | none ↦ (ok tt, fail_record r "Reconciliation: Resubmit failed: no queue publisher" s)
      | some publish ↦
          let payload : Resubmission = record {
            event_id = r.request_id;
            timestamp = r.accepted_at;
            requested_model = r.model_name;
          } in
          elim (publish payload) [
            | ok _ ↦ (ok tt, record s { published = s.published ++ payload ∷ [] })
            | raised e ↦ (raised e, s)
          ]
    ]
    | mark_failed ↦ (ok tt, fail_record r (append_text "Reconciliation: " event.reason) s)
    | _ ↦ (ok tt, s)
  ]

  unfoldable pub run_bedrock_analysis : ReconciliationEvent → InferenceResult → ReconciliationEvent
  run_bedrock_analysis event r = elim env.bedrock_analyzer [
    | none ↦ event
    | some analyze ↦ elim (analyze r) [
      | ok text ↦ record event { bedrock_analysis = some text }
      | raised e ↦ record event { bedrock_analysis = some (env.analysis_error e) }
    ]
  ]

  -- `_notify`
  unfoldable pub send_notification : ReconciliationEvent → InferenceResult → ReconciliationEvent
  send_notification event r = elim env.sns_publisher [
    | none ↦ event
    | some publish_failure ↦ elim (publish_failure event r) [
      | ok _ ↦ record event { notified = true }
      | raised e ↦ event
    ]
  ]

  -- What follows the healing.
  unfoldable pub explain : ReconciliationEvent → InferenceResult → ReconciliationEvent
  explain event r = elim event.action [
    | mark_failed ↦
        let analysed =
          if config.bedrock_analysis_enabled then run_bedrock_analysis event r else event in
        if config.sns_notification_enabled then send_notification analysed r else analysed
    | _ ↦ event
  ]

  -- One round of the loop over the stale records.
  unfoldable pub recover : InferenceResult → Engine → Result ReconciliationEvent × Engine
  unfolding decide_action
  recover r s =
      let event = decide_action r in
      let (healed, after) = execute_heal event r s in
      elim event.action [
        | skip ↦ (ok event, s)
        | _ ↦
            if config.dry_run_enabled
            then (ok event, s)
            else if config.heal_enabled
            then (elim healed [
              | ok _ ↦ (ok (explain event r), after)
              | raised e ↦ (raised e, after)
            ])
            else (ok event, s)
      ]

  unfoldable pub recover_all :
      List InferenceResult → Engine → Result (List ReconciliationEvent) × Engine
  recover_all [] s = (ok [], s)
  recover_all (r ∷ rs) s =
      let (answer, s1) = recover r s in
      let rest = recover_all rs s1 in
      elim answer [
        | raised e ↦ (raised e, s1)
        | ok event ↦ elim rest.0 [
          | raised e ↦ (raised e, rest.1)
          | ok events ↦ (ok (event ∷ events), rest.1)
        ]
      ]

  unfoldable pub run_once : Engine → Result (List ReconciliationEvent) × Engine
  run_once s =
      let (first, s1) = select_stale (scan_by_status s.result_store pending) s in
      let (second, s2) = select_stale (scan_by_status s1.result_store processing) s1 in
      elim first [
        | raised e ↦ (raised e, s1)
        | ok waiting ↦ elim second [
          | raised e ↦ (raised e, s2)
          | ok running ↦ recover_all (waiting ++ running) s2
        ]
      ]
