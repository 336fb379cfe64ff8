-- ===== src/Core/Metrics/Prometheus/Totals.antt =====
-- What the Prometheus sink shows after a run of events.
use ai_inference_project.Common.{
  ℕ, suc, ◌+◌, ◌≡◌, inl, inr, refl, sym, ◌∙◌, subst, String, false, Bool-cases, ◌&&◌, Option, some,
  List, [], ◌∷◌, if◌then◌else◌, get_or, ◌==◌, string_key, length, arith,
}
use ai_inference_project.Common.Dict
use ai_inference_project.Common.Dict.{Dict, get-put}
use ai_inference_project.Common.Sort.{insert, sorted}
use ai_inference_project.Core.Metrics.{
  MetricEvent, request_accepted, request_rejected, inference_started, inference_completed,
  inference_failed, batch_built, scheduling_decision, reconciliation_pass, queue_wait_time,
  circuit_breaker_transition, scaling_decided,
}
use ai_inference_project.Core.Metrics.Prometheus.{
  LabelSet, labels_key, label_set, Histogram, new_histogram, observe, latency_buckets,
  PrometheusSink, new_sink, inc, observe_in, emit, emit_all, counter_of, histogram_of,
}
use ai_inference_project.Core.Metrics.Prometheus.Histograms.{
  observe_all, Summarizes, observe_all-Summarizes,
}
use ai_inference_project.Core.Metrics.Prometheus.Series.{counter-inc, histogram-observe_in}

-- The durations of the completed inferences of the model, in order.
abbrev pub durations : (model : String) → List MetricEvent → List ℕ
durations m [] = []
durations m (inference_completed id model duration_ms ∷ es) =
    if model == m then duration_ms ∷ durations m es else durations m es
durations m (_ ∷ es) = durations m es

-- How many inferences of the model failed.
abbrev pub failures : (model : String) → List MetricEvent → ℕ
failures m [] = 0
failures m (inference_failed id model error ∷ es) =
    if model == m then suc (failures m es) else failures m es
failures m (_ ∷ es) = failures m es

-- The labels of the worker's requests of the model, with that outcome.
abbrev pub worker_labels : (outcome model : String) → LabelSet
worker_labels outcome model = ("model", model) ∷ ("outcome", outcome) ∷ []

abbrev pub worker_requests : PrometheusSink → (outcome model : String) → ℕ
worker_requests s outcome model =
    counter_of s "ai_inference_worker_requests_total" (worker_labels outcome model)

abbrev pub worker_durations : PrometheusSink → (model : String) → Option Histogram
worker_durations s model =
    histogram_of s "ai_inference_inference_duration_seconds" (("model", model) ∷ [])

sorted_labels :
    (outcome model : String)
    → label_set (("outcome", outcome) ∷ ("model", model) ∷ []) ≡ worker_labels outcome model
unfolding label_set insert sorted
sorted_labels outcome model = refl

one_label : (model : String) → label_set (("model", model) ∷ []) ≡ ("model", model) ∷ []
unfolding label_set insert sorted
one_label model = refl

-- The series of the worker's requests of the model, after a step of the sink that leads to `s`.
abbrev view : (model : String) → PrometheusSink → ℕ × ℕ × Option Histogram
view m s = (worker_requests s "completed" m, worker_requests s "failed" m, worker_durations s m)

module _ (m : String) where
  requests_after :
      (outcome model : String) (s : PrometheusSink) (other : String)
      → worker_requests
          (inc "ai_inference_worker_requests_total"
            (("outcome", outcome) ∷ ("model", model) ∷ [])
            1
            s)
          other
          m
        ≡ worker_requests s other m + (if model == m && outcome == other then 1 else 0)
  requests_after outcome model s other =
      let step =
        counter-inc "ai_inference_worker_requests_total"
          (("outcome", outcome) ∷ ("model", model) ∷ []) 1 s "ai_inference_worker_requests_total"
          (worker_labels other m) in
      ground (arith, step, sorted_labels outcome model)

  durations_after :
      (model : String) (v : ℕ) (s : PrometheusSink)
      → worker_durations
          (observe_in "ai_inference_inference_duration_seconds"
            (("model", model) ∷ [])
            v
            latency_buckets
            s)
          m
        ≡ (if model == m
            then some (observe v (get_or (worker_durations s m) (new_histogram latency_buckets)))
            else worker_durations s m)
  durations_after model v s =
      let step =
        histogram-observe_in "ai_inference_inference_duration_seconds" (("model", model) ∷ []) v
          latency_buckets s "ai_inference_inference_duration_seconds" (("model", m) ∷ []) in
      ground (arith, step, one_label model)

  inc-histograms :
      (name : String) (labels : Dict String String) (v : ℕ) (s : PrometheusSink)
      → worker_durations (inc name labels v s) m ≡ worker_durations s m
  unfolding inc
  inc-histograms name labels v s = refl

  observe_in-counters :
      (name : String) (labels : Dict String String) (v : ℕ) (buckets : List ℕ) (s : PrometheusSink)
      (outcome : String)
      → worker_requests (observe_in name labels v buckets s) outcome m ≡ worker_requests s outcome m
  unfolding observe_in
  observe_in-counters name labels v buckets s outcome = refl

  inc_outside :
      (name : String) (labels : Dict String String) (v : ℕ) (s : PrometheusSink)
      → (name == "ai_inference_worker_requests_total") ≡ false
      → view m (inc name labels v s) ≡ view m s
  inc_outside name labels v s off =
      λ i. (same "completed" i, same "failed" i, inc-histograms name labels v s i)
    where
      same :
          (outcome : String)
          → worker_requests (inc name labels v s) outcome m ≡ worker_requests s outcome m
      same outcome =
          let step =
            counter-inc name labels v s "ai_inference_worker_requests_total"
              (worker_labels outcome m) in
          ground (arith, step, off)

  observe_outside :
      (name : String) (labels : Dict String String) (v : ℕ) (buckets : List ℕ) (s : PrometheusSink)
      → (name == "ai_inference_inference_duration_seconds") ≡ false
      → view m (observe_in name labels v buckets s) ≡ view m s
  observe_outside name labels v buckets s off = λ i. (
    observe_in-counters name labels v buckets s "completed" i,
    observe_in-counters name labels v buckets s "failed" i,
    same i,
  )
    where
      same : worker_durations (observe_in name labels v buckets s) m ≡ worker_durations s m
      same =
          let step =
            histogram-observe_in name labels v buckets s "ai_inference_inference_duration_seconds"
              (("model", m) ∷ []) in
          ground (arith, step, off)

  -- The step between two views for a run of events.
  abbrev Advances : List MetricEvent → (before after : ℕ × ℕ × Option Histogram) → Type 0
  Advances es (completed, failed, hist) (completed', failed', hist') =
      (completed' ≡ completed + length (durations m es))
      × (failed' ≡ failed + failures m es)
      × (get_or hist' (new_histogram latency_buckets)
          ≡ observe_all (durations m es) (get_or hist (new_histogram latency_buckets)))

  -- An event of other series.
  skip :
      (es : List MetricEvent) (s next : PrometheusSink)
      → view m next ≡ view m s
      → Advances es (view m next) (view m (emit_all es next))
      → Advances es (view m s) (view m (emit_all es next))
  skip es s next e h = subst (λ v. Advances es v (view m (emit_all es next))) e h

  emit_all-Advances :
      (es : List MetricEvent) (s : PrometheusSink) → Advances es (view m s) (view m (emit_all es s))
  unfolding emit
  emit_all-Advances [] s = (omega arith, omega arith, refl)
  emit_all-Advances (inference_completed id model d ∷ es) s =
      let counted =
        inc "ai_inference_worker_requests_total" (("outcome", "completed") ∷ ("model", model) ∷ [])
          1 s in
      let next =
        observe_in "ai_inference_inference_duration_seconds" (("model", model) ∷ []) d
          latency_buckets counted in
      let (completed, failed, hist) = emit_all-Advances es next in
      let c =
        observe_in-counters "ai_inference_inference_duration_seconds" (("model", model) ∷ []) d
          latency_buckets counted "completed"
        ∙ requests_after "completed" model s "completed" in
      let f =
        observe_in-counters "ai_inference_inference_duration_seconds" (("model", model) ∷ []) d
          latency_buckets counted "failed"
        ∙ requests_after "completed" model s "failed" in
      let h = durations_after model d counted in
      let same =
        inc-histograms "ai_inference_worker_requests_total"
          (("outcome", "completed") ∷ ("model", model) ∷ []) 1 s in
      elim (Bool-cases (model == m)) [
        | inl hit ↦ (
          ground (arith, hit, completed, c),
          ground (arith, hit, failed, f),
          ground (arith, hit, hist, h, same),
        )
        | inr miss ↦ (
          ground (arith, miss, completed, c),
          ground (arith, miss, failed, f),
          ground (arith, miss, hist, h, same),
        )
      ]
  emit_all-Advances (inference_failed id model error ∷ es) s =
      let labels = ("outcome", "failed") ∷ ("model", model) ∷ [] in
      let (completed, failed, hist) =
        emit_all-Advances es (inc "ai_inference_worker_requests_total" labels 1 s) in
      let c = requests_after "failed" model s "completed" in
      let f = requests_after "failed" model s "failed" in
      let same = inc-histograms "ai_inference_worker_requests_total" labels 1 s in
      elim (Bool-cases (model == m)) [
        | inl hit ↦ (
          ground (arith, hit, completed, c),
          ground (arith, hit, failed, f),
          ground (arith, hist, same),
        )
        | inr miss ↦ (
          ground (arith, miss, completed, c),
          ground (arith, miss, failed, f),
          ground (arith, hist, same),
        )
      ]
  emit_all-Advances (inference_started id model batch_id ∷ es) s = emit_all-Advances es s
  emit_all-Advances (circuit_breaker_transition from_state to_state n ∷ es) s =
      emit_all-Advances es s
  emit_all-Advances (scaling_decided action reason current desired dry_run ∷ es) s =
      emit_all-Advances es s
  emit_all-Advances (request_accepted id model event_type tokens ∷ es) s =
      skip es s _ (inc_outside _ _ _ s refl) (emit_all-Advances es _)
  emit_all-Advances (request_rejected reason ∷ es) s =
      skip es s _ (inc_outside _ _ _ s refl) (emit_all-Advances es _)
  emit_all-Advances (batch_built id model size tokens reason ∷ es) s =
      skip es s _ (observe_outside _ _ _ _ _ refl ∙ observe_outside _ _ _ _ s refl)
        (emit_all-Advances es _)
  emit_all-Advances (scheduling_decision id model scheduled device_id reason ∷ es) s =
      skip es s _ (inc_outside _ _ _ s refl) (emit_all-Advances es _)
  emit_all-Advances (reconciliation_pass stale healed failed notified ∷ es) s =
      skip es s _
        (inc_outside _ _ _ _ refl
          ∙ inc_outside _ _ _ _ refl
          ∙ inc_outside _ _ _ _ refl
          ∙ inc_outside _ _ _ s refl)
        (emit_all-Advances es _)
  emit_all-Advances (queue_wait_time id wait_ms ∷ es) s =
      skip es s _ (observe_outside _ _ _ _ s refl) (emit_all-Advances es _)

-- After any run of events from a new sink, the counters of the worker's requests of a model are the
-- numbers of its completed and of its failed inferences, and the histogram of its durations holds, for
-- each bucket, how many completed inferences took at most the boundary, with their number and the sum
-- of their durations, where the counts of the buckets ascend up to that number; the events of other
-- models and of other kinds count for nothing in them.
pub emit_all-totals :
    (m : String) (es : List MetricEvent)
    → let s = emit_all es new_sink in
      (worker_requests s "completed" m ≡ length (durations m es))
      × (worker_requests s "failed" m ≡ failures m es)
      × Summarizes (durations m es) (get_or (worker_durations s m) (new_histogram latency_buckets))
unfolding Dict.get new_histogram
emit_all-totals m es =
    let (completed, failed, hist) = emit_all-Advances m es new_sink in
    (
      ground (arith, completed),
      ground (arith, failed),
      subst (Summarizes (durations m es)) (sym hist)
          (observe_all-Summarizes (durations m es) latency_buckets),
    )
