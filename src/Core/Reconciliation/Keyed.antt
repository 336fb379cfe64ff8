-- ===== src/Core/Reconciliation/Keyed.antt =====
-- The store stays keyed through a pass of the engine.
use ai_inference_project.Common.{
  ◌≡◌, ◌⊎◌, String, inl, inr, refl, sym, subst, Option-cases, List, [], ◌∷◌, ◌++◌, arith,
  Result-cases,
}
use ai_inference_project.Core.ResultStore.{InferenceResult, scan_by_status, pending, processing}
use ai_inference_project.Core.ResultStore.Laws.{IsKeyed, put-IsKeyed}
use ai_inference_project.Core.Reconciliation.{
  ReconciliationConfig, ReconciliationAction, resubmit, mark_failed, notify, skip,
  ReconciliationEvent, Services, Engine, select_stale, fail_record, execute_heal, recover,
  recover_all, run_once, decide_action,
}
use ai_inference_project.Core.Reconciliation.Laws.{select_stale-store}

action_cases :
    (a : ReconciliationAction) → (a ≡ resubmit) ⊎ ((a ≡ mark_failed) ⊎ ((a ≡ notify) ⊎ (a ≡ skip)))
action_cases resubmit = inl refl
action_cases mark_failed = inr (inl refl)
action_cases notify = inr (inr (inl refl))
action_cases skip = inr (inr (inr refl))

module _ (env : Services) (config : ReconciliationConfig) where
  fail_record-IsKeyed :
      (r : InferenceResult) (error : String) (s : Engine)
      → IsKeyed s.result_store
      → IsKeyed (fail_record env config r error s).result_store
  unfolding fail_record
  fail_record-IsKeyed r error s h = put-IsKeyed _ s.result_store h

  heal-IsKeyed :
      (event : ReconciliationEvent) (r : InferenceResult) (s : Engine)
      → IsKeyed s.result_store
      → IsKeyed (execute_heal env config event r s).1.result_store
  unfolding execute_heal
  heal-IsKeyed event r s h = elim (action_cases event.action) [
    | inl e ↦ elim (Option-cases env.queue_publisher) [
      | inl off ↦ rw (e, off, execute_heal) (fail_record-IsKeyed r _ s h)
      | inr (publish, on) ↦
          let same : (execute_heal env config event r s).1.result_store ≡ s.result_store =
            ground (arith, e, on) in
          subst IsKeyed (sym same) h
    ]
    | inr (inl e) ↦ rw (e, execute_heal) (fail_record-IsKeyed r _ s h)
    | inr (inr (inl e)) ↦ rw (e, execute_heal) h
    | inr (inr (inr e)) ↦ rw (e, execute_heal) h
  ]

  recover-IsKeyed :
      (r : InferenceResult) (s : Engine)
      → IsKeyed s.result_store
      → IsKeyed (recover env config r s).1.result_store
  unfolding recover
  recover-IsKeyed r s h =
      let healed = (execute_heal env config (decide_action env config r) r s).1.result_store in
      let either : ((recover env config r s).1.result_store ≡ s.result_store)
          ⊎ ((recover env config r s).1.result_store ≡ healed) =
        ground arith in
      elim either [
        | inl same ↦ subst IsKeyed (sym same) h
        | inr wrote ↦ subst IsKeyed (sym wrote) (heal-IsKeyed (decide_action env config r) r s h)
      ]

  recover_all-IsKeyed :
      (rs : List InferenceResult) (s : Engine)
      → IsKeyed s.result_store
      → IsKeyed (recover_all env config rs s).1.result_store
  unfolding recover_all
  recover_all-IsKeyed [] s h = h
  recover_all-IsKeyed (r ∷ rs) s h =
      let (answer, s1) = recover env config r s in
      let keyed = recover-IsKeyed r s h in
      let rest = recover_all-IsKeyed rs s1 keyed in
      elim (Result-cases answer) [
        | inl (e, raises) ↦ rw (raises, recover_all) keyed
        | inr (event, answers) ↦
            let same : (recover_all env config (r ∷ rs) s).1.result_store
                ≡ (recover_all env config rs s1).1.result_store =
              ground (arith, answers) in
            subst IsKeyed (sym same) rest
      ]

  -- A pass of the engine keeps a keyed store keyed, also where it ends with an exception.
  pub run_once-IsKeyed :
      (s : Engine) → IsKeyed s.result_store → IsKeyed (run_once env config s).1.result_store
  unfolding run_once
  run_once-IsKeyed s h =
      let waiting = scan_by_status s.result_store pending in
      let s1 = (select_stale env config waiting s).1 in
      let same1 = select_stale-store env config waiting s in
      let running = scan_by_status s1.result_store processing in
      let s2 = (select_stale env config running s1).1 in
      let same2 = select_stale-store env config running s1 in
      let keyed1 = subst IsKeyed (sym same1) h in
      let keyed2 = subst IsKeyed (sym same2) keyed1 in
      elim (Result-cases (select_stale env config waiting s).0) [
        | inl (e1, raises) ↦ rw (raises, run_once) keyed1
        | inr (found, finds) ↦ elim (Result-cases (select_stale env config running s1).0) [
          | inl (e2, raises) ↦ rw (finds, raises, run_once) keyed2
          | inr (more, finds2) ↦
              rw (finds, finds2, run_once) (recover_all-IsKeyed (found ++ more) s2 keyed2)
        ]
      ]
