-- ===== src/Core/Reconciliation/DryRun.antt =====
-- A pass of the engine in dry-run mode.
use ai_inference_project.Common.{
  ◌≡◌, refl, true, inl, inr, List, [], ◌∷◌, ◌++◌, arith, Result-cases,
}
use ai_inference_project.Core.ResultStore.{pending, processing, InferenceResult, scan_by_status}
use ai_inference_project.Core.Reconciliation.{
  Services, ReconciliationConfig, Engine, is_stale, select_stale, recover, recover_all, run_once,
}
use ai_inference_project.Core.Reconciliation.Laws.{select_stale-store}

module _ (env : Services) (config : ReconciliationConfig)
    (dry : config.dry_run_enabled ≡ true) where
  recover-dry : (r : InferenceResult) (s : Engine) → (recover env config r s).1 ≡ s
  unfolding recover
  recover-dry r s = ground (arith, dry)

  recover_all-dry : (rs : List InferenceResult) (s : Engine) → (recover_all env config rs s).1 ≡ s
  unfolding recover_all
  recover_all-dry [] s = refl
  recover_all-dry (r ∷ rs) s =
      ground (
        arith,
        recover-dry r s,
        recover_all-dry rs (recover env config r s).1,
        recover_all-dry rs s,
      )

  is_stale-published :
      (r : InferenceResult) (s : Engine) → (is_stale env config r s).1.published ≡ s.published
  unfolding is_stale
  is_stale-published r s = ground arith

  select_stale-published :
      (rs : List InferenceResult) (s : Engine)
      → (select_stale env config rs s).1.published ≡ s.published
  unfolding select_stale
  select_stale-published [] s = refl
  select_stale-published (r ∷ rs) s =
      ground (arith, is_stale-published r s, select_stale-published rs (is_stale env config r s).1)

  -- A dry run, also one with healing enabled, changes nothing in the result store and publishes
  -- nothing.
  pub run_once-dry :
      (s : Engine)
      → let after = (run_once env config s).1 in
        (after.result_store ≡ s.result_store) × (after.published ≡ s.published)
  unfolding run_once
  run_once-dry s =
      let waiting = scan_by_status s.result_store pending in
      let s1 = (select_stale env config waiting s).1 in
      let running = scan_by_status s1.result_store processing in
      let s2 = (select_stale env config running s1).1 in
      let kept = select_stale-store env config waiting s in
      let kept2 = select_stale-store env config running s1 in
      let quiet = select_stale-published waiting s in
      let quiet2 = select_stale-published running s1 in
      elim (Result-cases (select_stale env config waiting s).0) [
        | inl (e1, raises) ↦ ground (arith, raises, kept, quiet)
        | inr (found, finds) ↦ elim (Result-cases (select_stale env config running s1).0) [
          | inl (e2, raises) ↦ ground (arith, finds, raises, kept, kept2, quiet, quiet2)
          | inr (more, finds2) ↦
              ground (
                arith,
                finds,
                finds2,
                kept,
                kept2,
                quiet,
                quiet2,
                recover_all-dry (found ++ more) s2,
              )
        ]
      ]
