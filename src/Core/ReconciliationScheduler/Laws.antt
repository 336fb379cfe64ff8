-- ===== src/Core/ReconciliationScheduler/Laws.antt =====
-- What the scheduler's passes leave.
use mathlib.Core.List.{append_assoc, append-nil}
use ai_inference_project.Common.{
  ◌+◌, ◌≤◌, ◌≡◌, inl, inr, refl, sym, ap, ◌∙◌, String, Bool, true, false, Bool-cases, some, List,
  [], ◌∷◌, ◌++◌, All, length, filter, length-filter-le, length-append, All-append, arith,
  Result-cases,
}
use ai_inference_project.Core.Metrics.{MetricEvent, emit, reconciliation_pass}
use ai_inference_project.Core.ResultStore
use ai_inference_project.Core.ResultStore.{InferenceResult}
use ai_inference_project.Core.ResultStore.Laws.{IsKeyed}
use ai_inference_project.Core.Reconciliation.{
  ReconciliationConfig, ReconciliationEvent, Services, run_once,
}
use ai_inference_project.Core.Reconciliation.Laws.{is_ended, run_once-keeps}
use ai_inference_project.Core.Reconciliation.Keyed.{run_once-IsKeyed}
use ai_inference_project.Core.ReconciliationScheduler.{
  ReconciliationScheduler, is_healed, is_failed, one_pass, loop,
}

-- The event of a pass whose counts fit together.
abbrev pub IsPass : MetricEvent → Type 0
IsPass (reconciliation_pass stale healed failed notified) =
    (failed ≤ healed) × (healed ≤ stale) × (notified ≤ stale)
IsPass _ = ⊥

failed_healed :
    (es : List ReconciliationEvent) → length (filter is_failed es) ≤ length (filter is_healed es)
unfolding filter
failed_healed [] = omega arith
failed_healed (e ∷ es) = let rest = failed_healed es in ground (arith, rest)

module _ (env : Services) (config : ReconciliationConfig) where
  -- What some turns did: they emitted the events of the passes, and kept the records that had ended.
  pub record Passes (s after : ReconciliationScheduler) : Type 0 where
    pub events : List MetricEvent
    pub emitted : after.metrics ≡ s.metrics ++ events
    pub counted : after.pass_count ≡ s.pass_count + length events
    pub consistent : All IsPass events
    pub kept :
        (x : String) (r : InferenceResult)
        → ResultStore.get s.engine.result_store x ≡ some r
        → is_ended r.status ≡ true
        → ResultStore.get after.engine.result_store x ≡ some r
    pub keyed : IsKeyed after.engine.result_store

  idle :
      (s : ReconciliationScheduler) (runs : Bool)
      → IsKeyed s.engine.result_store
      → Passes s (record s { running = runs })
  idle s runs h = record {
    events = [];
    emitted = sym (append-nil s.metrics);
    counted = omega arith;
    consistent = tt;
    kept = λ x r e ended. e;
    keyed = h;
  }

  one_pass-Passes :
      (s : ReconciliationScheduler)
      → IsKeyed s.engine.result_store
      → Passes s (one_pass env config s)
  unfolding one_pass emit
  one_pass-Passes s h =
      let keyed = run_once-IsKeyed env config s.engine h in
      let kept = λ (x : String) (r : InferenceResult). run_once-keeps env config x r s.engine h in
      elim (Result-cases (run_once env config s.engine).0) [
        | inl (e, raises) ↦
            rw (raises, one_pass)
              (record {
                events = [];
                emitted = sym (append-nil s.metrics);
                counted = omega arith;
                consistent = tt;
                kept = kept;
                keyed = keyed;
              })
        | inr (es, answers) ↦
            rw (answers, one_pass)
              (record {
                events =
                    reconciliation_pass (length es) (length (filter is_healed es))
                      (length (filter is_failed es)) (length (filter (λ e. e.notified) es))
                    ∷ [];
                emitted = refl;
                counted = omega arith;
                consistent = (
                  (
                    failed_healed es,
                    length-filter-le is_healed es,
                    length-filter-le (λ e. e.notified) es,
                  ),
                  tt,
                );
                kept = kept;
                keyed = keyed;
              })
      ]

  -- However many turns the scheduler's loop takes before it is stopped, and whatever the services, the
  -- clock and the configuration are, it has emitted one event for each pass that it counts; the failed
  -- requests of an event are at most its healed ones, which, like the notified ones, are at most the
  -- stale ones; a keyed store stays keyed, and the record of a request that had ended is as it was.
  pub loop-Passes :
      (turns : List Bool) (s : ReconciliationScheduler)
      → IsKeyed s.engine.result_store
      → Passes s (loop env config turns s)
  unfolding loop
  loop-Passes [] s h = idle s s.running h
  loop-Passes (stops ∷ turns) s h = elim (Bool-cases stops) [
    | inl halts ↦ rw (halts, loop) (idle s false h)
    | inr goes ↦
        let first = one_pass-Passes s h in
        let rest = loop-Passes turns (one_pass env config s) first.keyed in
        rw (goes, loop)
          (record {
            events = first.events ++ rest.events;
            emitted =
                rest.emitted
                ∙ ap (λ ms. ms ++ rest.events) first.emitted
                ∙ append_assoc s.metrics first.events rest.events;
            counted =
                omega (arith, rest.counted, first.counted, length-append first.events rest.events);
            consistent =
                All-append IsPass first.events rest.events first.consistent rest.consistent;
            kept = λ x r e ended. rest.kept x r (first.kept x r e ended) ended;
            keyed = rest.keyed;
          })
  ]
